-- ===== src/Render/Inline.antt =====
-- What `_inline_safe` guarantees, and the bounds of the other text helpers.
use second_eye.Prelude.{
  ℕ, zero, suc, ◌+◌, ◌*◌, ◌≤◌, ◌≡◌, ◌≢◌, refl, Bool, true, false, List, [], ◌∷◌, ◌++◌, arith, All,
  All-append, length, length-append, length-take, take, ltb, leb, leb→le, sym, ap, ◌==◌, nat_eq,
  Bool-cases, inl, inr, if◌then◌else◌,
}
use second_eye.Prelude.Text.{Text, codes, is_space, join, replace_char}
use second_eye.Json.{Bytes}
use second_eye.Render.{
  Layout, end_word, words_from, words, shorten, inline_text, inline_safe, inline_max_len,
  round_kilobytes, decode_for_display, decode_truncated,
}

-- a character of a word, and one of words that single spaces separate
abbrev InWord : ℕ → Type 0
InWord c = is_space c ≡ false

abbrev InLine : ℕ → Type 0
InLine c = is_space c ≡ true → c ≡ b' '

-- no backtick, and no white space but the space
abbrev pub IsInline : ℕ → Type 0
IsInline c = (c ≢ b'`') × (is_space c ≡ true → c ≡ b' ')

end_word-InWord :
    (w : Text) (ws : List Text)
    → All InWord w
    → All (All InWord) ws
    → All (All InWord) (end_word w ws)
unfolding end_word
end_word-InWord [] ws h k = k
end_word-InWord (d ∷ w) ws h k = (h, k)

words_from-InWord : (w s : Text) → All InWord w → All (All InWord) (words_from w s)
unfolding words_from
words_from-InWord [] [] h = tt
words_from-InWord (c ∷ w) [] h = (h, tt)
words_from-InWord w (c ∷ s) h = elim (Bool-cases (is_space c)) [
  | inr in_word ↦
      rw in_word (words_from-InWord (w ++ c ∷ []) s (All-append InWord w (c ∷ []) h (in_word, tt)))
  | inl space ↦ rw space (end_word-InWord w (words_from [] s) h (words_from-InWord [] s tt))
]

InWord-InLine : (w : Text) → All InWord w → All InLine w
InWord-InLine [] h = tt
InWord-InLine (c ∷ w) h = (λ space. absurd (ground arith), InWord-InLine w h.1)

join-InLine : (ws : List Text) → All (All InWord) ws → All InLine (join (codes " ") ws)
unfolding join
join-InLine [] h = tt
join-InLine (w ∷ []) h = InWord-InLine w h.0
join-InLine (w ∷ v ∷ ws) h =
    All-append InLine w _ (InWord-InLine w h.0) (λ _. refl, join-InLine (v ∷ ws) h.1)

quote-IsInline : IsInline b'\''
unfolding is_space nat_eq
quote-IsInline = (λ e. omega arith, λ e. ground arith)

ellipsis-IsInline : IsInline 0x2026
unfolding is_space nat_eq
ellipsis-IsInline = (λ e. omega arith, λ e. ground arith)

replace_char-IsInline : (s : Text) → All InLine s → All IsInline (replace_char b'`' (codes "'") s)
unfolding replace_char
replace_char-IsInline [] h = tt
replace_char-IsInline (c ∷ s) h = elim (Bool-cases (c == b'`')) [
  | inl tick ↦ rw tick (quote-IsInline, replace_char-IsInline s h.1)
  | inr other ↦ rw other ((λ e. ground arith, h.0), replace_char-IsInline s h.1)
]

take-All {κ} : (P : ℕ → Type κ) (n : ℕ) (s : Text) → All P s → All P (take n s)
take-All P zero s h = tt
take-All P (suc n) [] h = tt
take-All P (suc n) (c ∷ s) h = (h.0, take-All P n s h.1)

shorten-IsInline :
    (s : Text) → All IsInline s → All IsInline (shorten s) × (length (shorten s) ≤ inline_max_len)
unfolding shorten
shorten-IsInline s h = elim (Bool-cases (ltb inline_max_len (length s))) [
  | inl long ↦ rw long (
    All-append IsInline (take 199 s) (codes "…") (take-All IsInline 199 s h)
        (ellipsis-IsInline, tt),
    omega (arith, length-append (take 199 s) (codes "…"), length-take 199 s),
  )
  | inr short ↦ rw short (h, ground arith)
]

-- The rendered text is a backtick, then at most 200 characters of which none is a backtick and none
-- white space but the plain space (so no line ends within), then a backtick.
pub inline_safe_lem :
    (text : Text)
    → (inline_safe text ≡ b'`' ∷ inline_text text ++ b'`' ∷ [])
      × All IsInline (inline_text text)
      × (length (inline_text text) ≤ inline_max_len)
unfolding inline_safe inline_text words
inline_safe_lem text =
    let line = join-InLine (words text) (words_from-InWord [] text tt) in
    let (plain, short) = shorten-IsInline _ (replace_char-IsInline _ line) in (refl, plain, short)

-- A kilobyte count is within half a kilobyte of the number of bytes.
pub round_kilobytes_near :
    (n : ℕ) → (n ≤ round_kilobytes n * 1024 + 512) × (round_kilobytes n * 1024 ≤ n + 512)
unfolding round_kilobytes
round_kilobytes_near n = ground arith

take_all : (n : ℕ) (s : Text) → length s ≤ n → take n s ≡ s
take_all n [] h = take-nil n
  where
    take-nil : (n : ℕ) → take {A = ℕ} n [] ≡ []
    take-nil zero = refl
    take-nil (suc n) = refl
take_all zero (c ∷ s) h = elim h [ ]
take_all (suc n) (c ∷ s) h = ap (λ l. c ∷ l) (take_all n s (omega arith))

cut_lem :
    (s : Text) (n : ℕ)
    → let (text, cut) : Text × Bool = if leb (length s) n then (s, false) else (take n s, true) in
      (text ≡ take n s) × (length text ≤ n) × (cut ≡ ltb n (length s))
cut_lem s n = elim (Bool-cases (leb (length s) n)) [
  | inl fits ↦ rw fits (sym (take_all n s (leb→le _ _ fits)), leb→le _ _ fits, ground arith)
  | inr long ↦ rw long (refl, omega (arith, length-take n s), ground arith)
]

-- The text shown of a body has at most the limit of characters and is the start of the whole text; it is
-- marked as cut exactly when the whole text is longer than the limit.
pub decode_truncated_lem :
    (lay : Layout) (body : Bytes) (max_chars : ℕ)
    → let (text, cut) = decode_truncated lay body max_chars in
      (text ≡ take max_chars (decode_for_display lay body))
      × (length text ≤ max_chars)
      × (cut ≡ ltb max_chars (length (decode_for_display lay body)))
unfolding decode_truncated
decode_truncated_lem lay body max_chars = cut_lem (decode_for_display lay body) max_chars
