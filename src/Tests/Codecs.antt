-- ===== src/Tests/Codecs.antt =====
-- Codecs that meet `Lawful`: UTF-8 restricted to ASCII, base64 that keeps the bytes, and a time written
-- as one code point in front of its offset.
use second_eye.Prelude.{ℕ, ◌+◌, ◌-◌, ◌≡◌, refl, Option, none, some, [], ◌∷◌, arith}
use second_eye.Prelude.Text.{Text, codes}
use second_eye.Json.{Codecs, Lawful}
use second_eye.Har.{decode_ascii}

abbrev pub first_time : Text → Option ℕ
first_time [] = none
first_time (k ∷ ks) = some (k - 100)

abbrev pub ascii_codecs : Codecs
ascii_codecs = record {
  utf8_decode = decode_ascii;
  utf8_encode = λ t. t;
  b64encode = λ b. b;
  b64decode = λ t. some t;
  isoformat = λ t. (t + 100) ∷ codes "+00:00";
  fromisoformat = first_time;
  repr = λ v. [];
  float_of_int = λ n. record { bits = n };
}

pub ascii_codecs-Lawful : Lawful ascii_codecs
unfolding decode_ascii
ascii_codecs-Lawful = record {
  utf8 = λ b t h. ground arith;
  b64 = λ b. refl;
  stem = λ t. (t + 100) ∷ [];
  isoformat-stem = λ t. refl;
  stem_plain = λ t. ((λ (e : t + 100 ≡ 90). absurd (omega arith)), tt);
  iso = λ t. ground arith;
}
