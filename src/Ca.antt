-- ===== src/Ca.antt =====
-- src/secondeye/tls/ca.py: the root CA, loaded from its two files or generated. X.509 and RSA are
-- parameters, and an outcome of the file system that the code handles is an argument.
pub mod Persistence
use second_eye.Prelude.{
  ℕ, ◌≡◌, Bool, true, false, ◌&&◌, Option, none, some, List, [], ◌∷◌, ◌++◌, list_eq, nat_eq,
  if◌then◌else◌,
}
use second_eye.Prelude.Text.{Text, codes}
use second_eye.Prelude.Dict.{Dict, lookup, insert}
use second_eye.Json.{Bytes}

-- What the code calls of the cryptography library.
pub record X509 (Certificate Key : Type 0) : Type 0 where
  -- `load_pem_x509_certificate`, with `none` for ValueError
  pub load_certificate : Bytes → Option Certificate
  -- `load_pem_private_key`: `none` for an error, and `some none` for a key that is not RSA
  pub load_key : Bytes → Option (Option Key)
  -- a new key with its self-signed certificate, for the randomness and time of the call
  pub generate : ℕ → Certificate × Key
  pub certificate_pem : Certificate → Bytes
  pub key_pem : Key → Bytes

-- What is documented of it: what was written is read back.
pub record Reads {Certificate Key : Type 0} (x : X509 Certificate Key) : Type 0 where
  pub certificate : (c : Certificate) → x.load_certificate (x.certificate_pem c) ≡ some c
  pub key : (k : Key) → x.load_key (x.key_pem k) ≡ some (some k)

pub record CertificateAuthority (Certificate Key : Type 0) : Type 0 where
  pub certificate : Certificate
  pub private_key : Key
  pub created : Bool

-- the state directory: whether its mode is 0700, and the files below it
pub record StateDir : Type 0 where
  pub owner_only : Bool
  pub files : Dict Text Bytes

-- whether the directory can be secured, and the two files can be written
pub record Disk : Type 0 where
  pub can_secure : Bool
  pub can_write_certificate : Bool
  pub can_write_key : Bool

abbrev pub cert_path : Text
cert_path = codes "ca/secondeye-ca.pem"

abbrev pub key_path : Text
key_path = codes "ca/secondeye-ca.key"

unfoldable pub file_exists : Text → StateDir → Bool
file_exists path d = elim (lookup path d.files) [ none ↦ false | some b ↦ true ]

unfoldable pub ca_exists : StateDir → Bool
ca_exists d = file_exists cert_path d && file_exists key_path d

module _ {Certificate Key : Type 0} (x : X509 Certificate Key) where
  -- `none` is CertGenerationError, here and below
  abbrev pub Loaded : Type 0
  Loaded = Option (CertificateAuthority Certificate Key)

  with_key : Certificate → Option (Option Key) → Loaded
  with_key c none = none
  with_key c (some none) = none
  with_key c (some (some k)) = some (record { certificate = c; private_key = k; created = false })

  -- the two files, read
  unfoldable pub load_ca : Option Bytes → Option Bytes → Loaded
  unfolding with_key
  load_ca (some cert) (some key) = elim (x.load_certificate cert) [
    | none ↦ none
    | some c ↦ with_key c (x.load_key key)
  ]
  load_ca _ _ = none

  -- the certificate is written first, then the key
  unfoldable pub generate_ca : ℕ → Disk → StateDir → Loaded × StateDir
  generate_ca seed o d =
      let (c, k) = x.generate seed in
      let with_cert = insert cert_path (x.certificate_pem c) d.files in
      if o.can_write_certificate
      then if o.can_write_key
        then (
          some (record { certificate = c; private_key = k; created = true }),
          record d { files = insert key_path (x.key_pem k) with_cert },
        )
        else (none, record d { files = with_cert })
      else (none, d)

  -- with the directory secured
  load_or_generate : ℕ → Disk → StateDir → Loaded × StateDir
  load_or_generate seed o d =
      if ca_exists d
      then (load_ca (lookup cert_path d.files) (lookup key_path d.files), d)
      else generate_ca seed o d

  unfoldable pub load_or_create_ca : ℕ → Disk → StateDir → Loaded × StateDir
  unfolding load_or_generate
  load_or_create_ca seed o d =
      if o.can_secure then load_or_generate seed o (record d { owner_only = true }) else (none, d)
