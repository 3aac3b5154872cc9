-- ===== src/Ca/Persistence.antt =====
-- The root CA stays the same from one start to the next.
use second_eye.Prelude.{
  ℕ, ◌≡◌, refl, sym, ap, ◌∙◌, true, false, Option, none, some, arith, Bool-cases, inl, inr, list_eq,
  nat_eq,
}
use mathlib.Core.Path.{subst}
use second_eye.Prelude.Text.{Text}
use second_eye.Prelude.Dict.{Dict, lookup, insert, lookup-insert, lookup-insert_self}
use second_eye.Json.{Bytes}
use second_eye.Ca.{
  X509, Reads, CertificateAuthority, StateDir, Disk, cert_path, key_path, file_exists, ca_exists,
  load_ca, generate_ca, load_or_generate, load_or_create_ca, with_key,
}

module _ {Certificate Key : Type 0} (x : X509 Certificate Key) where
  -- the two files hold the CA, and only the owner can reach them
  abbrev pub IsSaved : CertificateAuthority Certificate Key → StateDir → Type 0
  IsSaved ca d =
      (cert key : Bytes) × (lookup cert_path d.files ≡ some cert)
      × (lookup key_path d.files ≡ some key)
      × (x.load_certificate cert ≡ some ca.certificate)
      × (x.load_key key ≡ some (some ca.private_key))
      × (d.owner_only ≡ true)

  load_ca-IsSaved :
      (cert key : Option Bytes) (ca : CertificateAuthority Certificate Key)
      → load_ca x cert key ≡ some ca
      → (c k : Bytes) × (cert ≡ some c)
        × (key ≡ some k)
        × (x.load_certificate c ≡ some ca.certificate)
        × (x.load_key k ≡ some (some ca.private_key))
  unfolding load_ca with_key
  load_ca-IsSaved none key ca h = absurd (ground arith)
  load_ca-IsSaved (some c) none ca h = absurd (ground arith)
  load_ca-IsSaved (some c) (some k) ca h = (c, k, refl, refl, ground arith, ground arith)

  -- the certificate is not overwritten by the key
  cert_kept :
      (key : Bytes) (d : Dict Text Bytes)
      → lookup cert_path (insert key_path key d) ≡ lookup cert_path d
  unfolding list_eq nat_eq
  cert_kept key d = lookup-insert cert_path key_path key d

  generate_ca_parts :
      (seed : ℕ) (o : Disk) (d d1 : StateDir) (ca : CertificateAuthority Certificate Key)
      → generate_ca x seed o d ≡ (some ca, d1)
      → (ca.certificate ≡ (x.generate seed).0)
        × (ca.private_key ≡ (x.generate seed).1)
        × (d1.owner_only ≡ d.owner_only)
        × (d1.files
            ≡ insert key_path
                (x.key_pem (x.generate seed).1)
                (insert cert_path (x.certificate_pem (x.generate seed).0) d.files))
  unfolding generate_ca
  generate_ca_parts seed o d d1 ca h = ground arith

  generate_ca-IsSaved :
      Reads x
      → (seed : ℕ) (o : Disk) (d d1 : StateDir) (ca : CertificateAuthority Certificate Key)
      → d.owner_only ≡ true
      → generate_ca x seed o d ≡ (some ca, d1)
      → IsSaved ca d1
  generate_ca-IsSaved reads seed o d d1 ca secured h =
      let (c, k, mode, files) = generate_ca_parts seed o d d1 ca h in
      let cert = x.certificate_pem (x.generate seed).0 in
      let key = x.key_pem (x.generate seed).1 in
      let written = insert cert_path cert d.files in
      (
        cert,
        key,
        ap (lookup cert_path) files
            ∙ cert_kept key written
            ∙ lookup-insert_self cert_path cert d.files,
        ap (lookup key_path) files ∙ lookup-insert_self key_path key written,
        reads.certificate (x.generate seed).0 ∙ ap some (sym c),
        reads.key (x.generate seed).1 ∙ ap (λ j. some (some j)) (sym k),
        mode ∙ secured,
      )

  load_or_create_ca-IsSaved :
      Reads x
      → (seed : ℕ) (o : Disk) (d d1 : StateDir) (ca : CertificateAuthority Certificate Key)
      → load_or_create_ca x seed o d ≡ (some ca, d1)
      → IsSaved ca d1
  unfolding load_or_create_ca load_or_generate
  load_or_create_ca-IsSaved reads seed o d d1 ca h = elim (Bool-cases o.can_secure) [
    | inr unsafe ↦ absurd (ground arith)
    | inl secured ↦
        let d' : StateDir = record d { owner_only = true } in
        elim (Bool-cases (ca_exists d')) [
          | inl there ↦
              let made : load_ca x (lookup cert_path d.files) (lookup key_path d.files) ≡ some ca =
                ground arith in
              let left : d1 ≡ d' = ground arith in
              let (cert, key, c, k, good, good') = load_ca-IsSaved _ _ ca made in
              subst (IsSaved ca) (sym left) (cert, key, c, k, good, good', refl)
          | inr missing ↦ generate_ca-IsSaved reads seed o d' d1 ca refl (ground arith)
        ]
  ]

  IsSaved-load :
      (seed : ℕ) (o : Disk) (d : StateDir) (ca : CertificateAuthority Certificate Key)
      → o.can_secure ≡ true
      → IsSaved ca d
      → load_or_create_ca x seed o d ≡ (some (record ca { created = false }), d)
  unfolding load_or_create_ca load_or_generate ca_exists file_exists load_ca with_key
  IsSaved-load seed o d ca secured (cert, key, c, k, good, good', mode) = ground arith

  -- Once the CA was loaded or created, each later start finds the same one: whatever the randomness and
  -- time of that start, and whether or not it could write files, if it can secure the directory it
  -- returns the same certificate and key, not as a new CA, and leaves the directory as it was. The
  -- files are taken to be read back as they were written.
  pub load_or_create_ca_again :
      Reads x
      → (seed later : ℕ) (o o' : Disk) (d d1 : StateDir) (ca : CertificateAuthority Certificate Key)
      → load_or_create_ca x seed o d ≡ (some ca, d1)
      → o'.can_secure ≡ true
      → load_or_create_ca x later o' d1 ≡ (some (record ca { created = false }), d1)
  load_or_create_ca_again reads seed later o o' d d1 ca made secured =
      IsSaved-load later o' d1 ca secured (load_or_create_ca-IsSaved reads seed o d d1 ca made)
