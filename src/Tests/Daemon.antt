-- ===== src/Tests/Daemon.antt =====
-- A daemon that is constructed, the command line against one, and a CA that is found again.
use second_eye.Prelude.{true, false, none, some, [], ◌∷◌}
use second_eye.Prelude.Text.{codes}
use second_eye.Manager.{start_capture}
use second_eye.Upstream.{pos}
use second_eye.Daemon.{DaemonConfig, Startup}
use second_eye.Prelude.{refl, ◌≡◌, false}
use second_eye.Prelude.Dict.{lookup}
use second_eye.Json.{Bytes}
use second_eye.Ca.{
  X509, Reads, CertificateAuthority, StateDir, Disk, ca_exists, file_exists, generate_ca,
  load_or_create_ca,
}
use second_eye.Ca.Persistence.{load_or_create_ca_again}
use second_eye.Cli.{Console}
use second_eye.Cli.Capturing.{Tells, run_capture_start, run_capture_start-Tells}
use second_eye.Tests.Codecs.{ascii_codecs-Lawful}
use second_eye.Tests.CaptureRun.{env, idle}
use second_eye.Tests.Control.{wire}
use second_eye.Tests.Traffic.{plain_matching}

abbrev startup : Startup
startup = record {
  matching = plain_matching;
  parsing = record { is_loopback = λ host. some true; to_int = λ s. some (pos 80) };
  load_or_create_ca = λ dir. some true;
}

abbrev config : DaemonConfig
config = record {
  listen_host = codes "127.0.0.1";
  listen_port = pos 8079;
  targets = codes "b.c" ∷ [];
  target_regex = [];
  upstream_host = some (codes "127.0.0.1");
  upstream_port = some (pos 8080);
  no_upstream = false;
  upstream_ca = none;
  upstream_insecure = true;
  target_all = false;
  cluster_window_ms = pos 2000;
  max_connections = 256;
  state_dir = codes "/s";
}

abbrev console : Console
console = record {
  utc_text = λ t. codes "2026-01-01 00:00:00 UTC";
  time_text = λ t. codes "00:00:00";
  repr = λ v. [];
  kilobytes = λ n. codes "1.0";
  megabytes = λ n. codes "1.0";
  green = λ t. t;
  red = λ t. t;
}

run_capture_start-Tells_example :
    Tells wire console
      (start_capture env 3 (codes "one") idle).0
      (run_capture_start wire console env 3 (codes "one") idle)
run_capture_start-Tells_example =
    run_capture_start-Tells wire console ascii_codecs-Lawful env 3 (codes "one") idle

-- certificates and keys that are their own PEM files
abbrev x509 : X509 Bytes Bytes
x509 = record {
  load_certificate = some;
  load_key = λ b. some (some b);
  generate = λ seed. (seed ∷ [], seed ∷ seed ∷ []);
  certificate_pem = λ c. c;
  key_pem = λ k. k;
}

x509-Reads : Reads x509
x509-Reads = record { certificate = λ c. refl; key = λ k. refl }

abbrev working : Disk
working = record { can_secure = true; can_write_certificate = true; can_write_key = true }

abbrev empty : StateDir
empty = record { owner_only = false; files = [] }

abbrev created_ca : CertificateAuthority Bytes Bytes
created_ca = record { certificate = 7 ∷ []; private_key = 7 ∷ 7 ∷ []; created = true }

created_run :
    load_or_create_ca x509 7 working empty
    ≡ (some created_ca, (load_or_create_ca x509 7 working empty).1)
unfolding load_or_create_ca ca_exists file_exists generate_ca lookup
created_run = refl

load_or_create_ca_again_example :
    load_or_create_ca x509 8 working (load_or_create_ca x509 7 working empty).1
    ≡ (some (record created_ca { created = false }), (load_or_create_ca x509 7 working empty).1)
load_or_create_ca_again_example =
    load_or_create_ca_again x509 x509-Reads 7 8 working working empty
      (load_or_create_ca x509 7 working empty).1 created_ca created_run refl
