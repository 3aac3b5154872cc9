-- ===== src/Sni/Buffering.antt =====
-- Buffer and parse again: what INCOMPLETE asks for, and why any other outcome is kept.
use second_eye.Prelude.{
  ℕ, zero, suc, ◌+◌, ◌-◌, ◌<◌, ◌≤◌, ◌≡◌, refl, ◌++◌, true, some, [], ◌∷◌, arith, length, drop,
  length-append, nat_eq, take-append, length-drop,
}
use second_eye.Json.{Bytes}
use second_eye.Sni.{ClientHelloParseResult, needs, slice, from_bytes, byte, parse_client_hello}
use second_eye.Sni.Total.{is_final, parse_handshake_body-settled}

drop-append : (n : ℕ) (xs ys : Bytes) → n ≤ length xs → drop n (xs ++ ys) ≡ drop n xs ++ ys
drop-append zero xs ys h = refl
drop-append (suc n) [] ys h = elim h [ ]
drop-append (suc n) (x ∷ xs) ys h = drop-append n xs ys (omega arith)

-- a slice inside the buffer is not changed by what comes after
slice-append :
    (i j : ℕ) (b more : Bytes) → i ≤ j → j ≤ length b → slice (b ++ more) i j ≡ slice b i j
slice-append i j b more h k =
    rw (drop-append i b more (omega arith))
      (take-append (j - i) (drop i b) more (omega (arith, length-drop i b)))

byte-append : (b more : Bytes) → 0 < length b → byte (b ++ more) 0 ≡ byte b 0
byte-append [] more h = elim h [ ]
byte-append (x ∷ b) more h = refl

-- INCOMPLETE names a length that the buffer has not reached.
pub incomplete_asks_for_more :
    (b : Bytes) (n : ℕ) → parse_client_hello b ≡ some (needs n) → length b < n
unfolding parse_client_hello
incomplete_asks_for_more b n h =
    let body = slice b 5 (5 + from_bytes (slice b 3 5)) in
    ground (arith, parse_handshake_body-settled body)

-- An outcome other than INCOMPLETE is final: whatever bytes arrive after it, the longer buffer has the same result.
pub outcome_is_final :
    (b more : Bytes) (r : ClientHelloParseResult)
    → parse_client_hello b ≡ some r
    → is_final r.outcome ≡ true
    → parse_client_hello (b ++ more) ≡ some r
unfolding parse_client_hello
outcome_is_final b more r h f =
    let total = 5 + from_bytes (slice b 3 5) in
    ground (
      arith,
      length-append b more,
      byte-append b more,
      slice-append 3 5 b more,
      slice-append 5 total b more,
    )
