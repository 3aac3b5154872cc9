-- ===== src/Tests/Traffic.antt =====
-- Entries to run on, and stand-ins for `urllib.parse`, the floats, the JSON reader and the matchers.
use second_eye.Prelude.{
  ℕ, ◌+◌, ◌-◌, ◌*◌, ◌/◌, true, false, none, some, List, [], ◌∷◌, leb, ◌==◌, list_eq, nat_eq,
}
use second_eye.Prelude.Text.{Text, codes}
use second_eye.Json.{Bytes, Float64}
use second_eye.Urls.{Urls}
use second_eye.Har.{HarHeader, HarEntry}
use second_eye.Classify.{ClassifiedEntry, Category, navigation, xhr_api}
use second_eye.Polling.{FloatOps, JsonReader}
use second_eye.Scope.{Matching}

-- A URL is its path, and a Location is absolute; both are refused where they are a bracket.
abbrev pub plain_urls : Urls
plain_urls = record {
  urlsplit =
      λ t. record { scheme = codes "http"; path = t; query = []; hostname = none; port = none };
  urljoin = λ base location. location;
  parse_qs = λ q. [];
  split_raises = λ t. t == codes "[";
  join_raises = λ base location. location == codes "[";
  port_raises = λ t. false;
}

abbrev float : ℕ → Float64
float n = record { bits = n }

-- whole numbers, of which a fifth is the tolerance
abbrev pub whole_floats : FloatOps
whole_floats = record {
  seconds_between = λ a b. float (a - b);
  of_int = float;
  fle = λ x y. leb x.bits y.bits;
  fadd = λ x y. float (x.bits + y.bits);
  fsub = λ x y. float (x.bits - y.bits + (y.bits - x.bits));
  fmul = λ x y. float (x.bits * y.bits / 5);
  fdiv = λ x y. float (x.bits / y.bits);
  fabs = λ x. x;
  tolerance = float 1;
}

-- no body is JSON
abbrev pub no_reader : JsonReader
no_reader = record { loads = λ b. none; loads_raises = λ b. false; same = λ x y. false }

-- names are ASCII in lower case, a pattern is met by itself, and the regex `*` is refused
abbrev pub plain_matching : Matching
plain_matching = record {
  idna_encode = λ t. some t;
  lower_text = λ t. t;
  glob_match = λ p t. p == t;
  compile_regex = λ p. some (λ t. p == t);
}

abbrev pub header : Text → Text → HarHeader
header n v = record { name = n; value = v }

abbrev entry_at : ℕ → Text → List HarHeader → ℕ → List HarHeader → Bytes → HarEntry
entry_at t url sent status received body = record {
  started_at = t;
  time_ms = float 7;
  request = record {
    method = codes "GET";
    url = url;
    http_version = codes "1.1";
    headers = sent;
    body = [];
  };
  response = record {
    status = status;
    status_text = codes "X";
    http_version = codes "1.1";
    headers = received;
    body = body;
  };
}

-- a form that is posted with a body that is no ASCII
abbrev pub post_form : HarEntry
post_form = record {
  started_at = 5;
  time_ms = float 7;
  request = record {
    method = codes "POST";
    url = codes "/login";
    http_version = codes "1.1";
    headers = header (codes "Content-Type") (codes "text/plain") ∷ [];
    body = 104 ∷ 200 ∷ [];
  };
  response = record {
    status = 204;
    status_text = codes "No Content";
    http_version = codes "1.1";
    headers = [];
    body = codes "ok";
  };
}

abbrev navigate : HarHeader
navigate = header (codes "Sec-Fetch-Mode") (codes "navigate")

abbrev pub page_a : HarEntry
page_a =
    entry_at 10 (codes "/a") (navigate ∷ []) 302 (header (codes "Location") (codes "/b") ∷ []) []

abbrev pub page_b : HarEntry
page_b = entry_at 20 (codes "/b") (navigate ∷ []) 200 [] (codes "hi")

abbrev pub poll_at : ℕ → HarEntry
poll_at t =
    entry_at t (codes "/poll") (header (codes "Referer") (codes "/b") ∷ []) 200 [] (codes "1")

abbrev pub classified : Category → ℕ → HarEntry → ClassifiedEntry
classified k i e = record { index = i; entry = e; category = k; confirmed = true }

abbrev pub redirected : List ClassifiedEntry
redirected = classified navigation 0 page_a ∷ classified navigation 1 page_b ∷ []

abbrev pub polled : List ClassifiedEntry
polled =
    classified xhr_api 2 (poll_at 1000)
    ∷ classified xhr_api 3 (poll_at 2000)
    ∷ classified xhr_api 4 (poll_at 3000)
    ∷ []
