-- ===== src/Tests/Lines.antt =====
-- The writer of Tests/Writer.antt writes a dict on one line, with no white space, and reads it back.
use second_eye.Prelude.{
  ℕ, ◌≤◌, ◌≡◌, ◌≢◌, refl, ◌∙◌, ap, false, Option, none, some, List, [], ◌∷◌, arith, All, All-append,
}
use mathlib.Core.List.{reverse, reverse-cons, reverse-reverse}
use second_eye.Prelude.Text.{Text, strip, drop_while, drop_while_end, is_space}
use second_eye.Json.{
  Json, null, bool, int, neg, flt, str, arr, obj, Items, nil, cons, Fields, end, field,
}
use second_eye.Buffer.{JsonText}
use second_eye.Buffer.Laws.{WritesLines}
use second_eye.Tests.Writer.{
  Op, op_null, op_bool, op_int, op_neg, op_flt, op_str, op_arr, op_obj, op_nil, op_cons, op_end,
  op_field, op_empty, op_char, Value, fields, code_of, emit, run, run-nil, write_text, write,
  write_items, write_fields, run-write_fields,
}

-- every code point written is above all white space
abbrev IsHigh : Text → Type 0
IsHigh = All (λ k. 20000 ≤ k)

high-code_of : (o : Op) → 20000 ≤ code_of o
unfolding code_of
high-code_of o = ground arith

IsHigh-emit : (o : Op) (p : ℕ) (rest : Text) → IsHigh rest → IsHigh (emit o p rest)
IsHigh-emit o p rest h = (high-code_of o, (omega arith, h))

IsHigh-write_text : (t rest : Text) → IsHigh rest → IsHigh (write_text t rest)
unfolding write_text
IsHigh-write_text [] rest h = IsHigh-emit op_empty 0 rest h
IsHigh-write_text (k ∷ t) rest h = IsHigh-write_text t _ (IsHigh-emit op_char k rest h)

mutual
  unfolding write

  IsHigh-write : (v : Json) (rest : Text) → IsHigh rest → IsHigh (write v rest)
  IsHigh-write null rest h = IsHigh-emit op_null 0 rest h
  IsHigh-write (bool b) rest h = IsHigh-emit op_bool _ rest h
  IsHigh-write (int n) rest h = IsHigh-emit op_int n rest h
  IsHigh-write (neg n) rest h = IsHigh-emit op_neg n rest h
  IsHigh-write (flt x) rest h = IsHigh-emit op_flt x.bits rest h
  IsHigh-write (str t) rest h = IsHigh-write_text t _ (IsHigh-emit op_str 0 rest h)
  IsHigh-write (arr vs) rest h = IsHigh-write_items vs _ (IsHigh-emit op_arr 0 rest h)
  IsHigh-write (obj fs) rest h = IsHigh-write_fields fs _ (IsHigh-emit op_obj 0 rest h)

  IsHigh-write_items : (vs : Items) (rest : Text) → IsHigh rest → IsHigh (write_items vs rest)
  IsHigh-write_items nil rest h = IsHigh-emit op_nil 0 rest h
  IsHigh-write_items (cons v vs) rest h =
      IsHigh-write v _ (IsHigh-write_items vs _ (IsHigh-emit op_cons 0 rest h))

  IsHigh-write_fields : (fs : Fields) (rest : Text) → IsHigh rest → IsHigh (write_fields fs rest)
  IsHigh-write_fields end rest h = IsHigh-emit op_end 0 rest h
  IsHigh-write_fields (field k v fs) rest h =
      IsHigh-write_text k _
        (IsHigh-write v _ (IsHigh-write_fields fs _ (IsHigh-emit op_field 0 rest h)))

low_is_space : (k : ℕ) → 20000 ≤ k → is_space k ≡ false
unfolding is_space
low_is_space k h = ground arith

drop_while-IsHigh : (s : Text) → IsHigh s → drop_while is_space s ≡ s
unfolding drop_while
drop_while-IsHigh [] h = refl
drop_while-IsHigh (k ∷ s) h = rw (low_is_space k h.0) refl

IsHigh-reverse : (s : Text) → IsHigh s → IsHigh (reverse s)
IsHigh-reverse [] h = tt
IsHigh-reverse (k ∷ s) h =
    rw (reverse-cons k s) (All-append (λ j. 20000 ≤ j) _ _ (IsHigh-reverse s h.1) (h.0, tt))

strip-IsHigh : (s : Text) → IsHigh s → strip s ≡ s
unfolding strip drop_while_end
strip-IsHigh s h =
    rw (drop_while-IsHigh s h, drop_while-IsHigh (reverse s) (IsHigh-reverse s h))
      (reverse-reverse s)

one_line-IsHigh : (s : Text) → IsHigh s → All (λ k. (k ≢ 10) × (k ≢ 13)) s
one_line-IsHigh [] h = tt
one_line-IsHigh (k ∷ s) h =
    ((λ e. absurd (omega arith), λ e. absurd (omega arith)), one_line-IsHigh s h.1)

abbrev top : List Value → Option Json
top (fields d ∷ st) = some (obj d)
top _ = none

abbrev read : Text → Option Json
read [] = none
read (k ∷ s) = top (run s [])

-- a first code point makes the text other than empty
abbrev pub machine_json : JsonText
machine_json = record { dumps = λ d. 20000 ∷ write_fields d []; loads_text = read }

IsHigh-dumps : (d : Fields) → IsHigh (20000 ∷ write_fields d [])
IsHigh-dumps d = (omega arith, IsHigh-write_fields d [] tt)

pub machine_json-WritesLines : WritesLines machine_json
machine_json-WritesLines = record {
  round_trip = λ d keys. ap top (run-write_fields d [] [] ∙ run-nil (fields d ∷ []));
  one_line = λ d. one_line-IsHigh (20000 ∷ write_fields d []) (IsHigh-dumps d);
  tight = λ d. strip-IsHigh (20000 ∷ write_fields d []) (IsHigh-dumps d);
  some_text = λ d e. cc;
}
