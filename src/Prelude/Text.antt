-- ===== src/Prelude/Text.antt =====
-- Python's `str` as a list of code points, and the methods of `str` that the program calls.
-- `lower` is exact on Latin-1, which is all that a header decoded as latin-1 can hold.
use Prim.Native.Nat.{ℕ, zero, suc, ◌+◌, ◌/◌, ◌%◌}
use Prim.Native.Char.{code}
use Prim.Native.String.{String}
use mathlib.Core.Path.{◌≡◌, refl}
use mathlib.Core.Bool.{Bool, true, false, ◌&&◌, ◌||◌, not}
use mathlib.Core.List.{List, [], ◌∷◌, ◌++◌, map, reverse}
use native.Mathlib.Omega.{arith}
use second_eye.Prelude.Tests.{leb, if◌then◌else◌}
use second_eye.Prelude.Lists.{length, drop}
use second_eye.Prelude.Equality.{◌==◌, nat_eq, list_eq}

abbrev pub Text : Type 0
Text = List ℕ

-- a literal, as its code points
abbrev pub codes : String → Text
codes String.[] = []
codes (String.◌∷◌ c s) = code c ∷ codes s

lower_char : ℕ → ℕ
lower_char c =
    if leb b'A' c && leb c b'Z'
    then c + 32
    else if leb 0xc0 c && leb c 0xde && not (c == 0xd7)
    then c + 32
    else c

-- `s.lower()`
unfoldable pub lower : Text → Text
unfolding lower_char
lower = map lower_char

unfoldable pub is_space : ℕ → Bool
is_space c =
    leb 9 c && leb c 13
    || leb 28 c && leb c 32
    || c == 0x85
    || c == 0xa0
    || c == 0x1680
    || leb 0x2000 c && leb c 0x200a
    || leb 0x2028 c && leb c 0x2029
    || c == 0x202f
    || c == 0x205f
    || c == 0x3000

-- drops the characters in front that pass a test
unfoldable pub drop_while : (ℕ → Bool) → Text → Text
drop_while p [] = []
drop_while p (c ∷ s) = let rest = drop_while p s in if p c then rest else c ∷ s

-- the same at the end
unfoldable pub drop_while_end : (ℕ → Bool) → Text → Text
unfolding drop_while
drop_while_end p s = reverse (drop_while p (reverse s))

-- `s.strip()`
unfoldable pub strip : Text → Text
unfolding is_space drop_while_end
strip s = drop_while_end is_space (drop_while is_space s)

-- `s.rstrip(c)` for one character
unfoldable pub rstrip_char : ℕ → Text → Text
unfolding drop_while_end
rstrip_char c = drop_while_end (λ d. d == c)

-- `s.startswith(p)`
unfoldable pub starts_with : Text → Text → Bool
starts_with s [] = true
starts_with [] (d ∷ p) = false
starts_with (c ∷ s) (d ∷ p) = c == d && starts_with s p

-- `s.endswith(p)`
unfoldable pub ends_with : Text → Text → Bool
unfolding starts_with
ends_with s p = starts_with (reverse s) (reverse p)

-- `p in s`
unfoldable pub has_substring : Text → Text → Bool
unfolding starts_with
has_substring [] p = starts_with [] p
has_substring (c ∷ s) p = starts_with (c ∷ s) p || has_substring s p

-- `s.removeprefix(p)`
unfoldable pub remove_prefix : Text → Text → Text
unfolding starts_with
remove_prefix s p = if starts_with s p then drop (length p) s else s

-- `s.split(c, 1)[0]`: the part in front of the first `c`
unfoldable pub before_char : ℕ → Text → Text
before_char c [] = []
before_char c (d ∷ s) = let rest = before_char c s in if d == c then [] else d ∷ rest

-- `s.split(c)`
add_to_first : ℕ → List Text → List Text
add_to_first d [] = (d ∷ []) ∷ []
add_to_first d (w ∷ ws) = (d ∷ w) ∷ ws

unfoldable pub split_char : ℕ → Text → List Text
unfolding add_to_first
split_char c [] = [] ∷ []
split_char c (d ∷ s) =
    let rest = split_char c s in if d == c then [] ∷ rest else add_to_first d rest

-- `sep.join(parts)`
unfoldable pub join : Text → List Text → Text
join sep [] = []
join sep (w ∷ []) = w
join sep (w ∷ v ∷ ws) = w ++ (sep ++ join sep (v ∷ ws))

-- `s.replace(c, t)` for one character
unfoldable pub replace_char : ℕ → Text → Text → Text
replace_char c t [] = []
replace_char c t (d ∷ s) = (if d == c then t else d ∷ []) ++ replace_char c t s

pub starts_with-append : (p s : Text) → starts_with (p ++ s) p ≡ true
unfolding starts_with
starts_with-append [] s = refl
starts_with-append (c ∷ p) s = ground (arith, starts_with-append p s)

lower_example : lower (codes "Content-TYPE") ≡ codes "content-type"
unfolding lower
lower_example = refl

strip_example : strip (codes "  a b \n") ≡ codes "a b"
unfolding strip nat_eq
strip_example = refl

split_example : split_char 46 (codes "a.bc.") ≡ codes "a" ∷ codes "bc" ∷ [] ∷ []
unfolding split_char nat_eq
split_example = refl

-- the order of texts, by code points
unfoldable pub text_leb : Text → Text → Bool
text_leb [] t = true
text_leb (c ∷ s) [] = false
text_leb (c ∷ s) (d ∷ t) = if c == d then text_leb s t else leb c d

decimal_onto : ℕ → ℕ → Text → Text
decimal_onto zero n acc = acc
decimal_onto (suc fuel) n acc =
    let acc' = (48 + n % 10) ∷ acc in
    let rest = decimal_onto fuel (n / 10) acc' in if leb n 9 then acc' else rest

-- `str(n)`; a number has no more digits than its value and one
unfoldable pub decimal : ℕ → Text
unfolding decimal_onto
decimal n = decimal_onto (suc n) n []

decimal_example : decimal 3070 ≡ codes "3070"
unfolding decimal
decimal_example = refl
