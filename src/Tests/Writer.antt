-- ===== src/Tests/Writer.antt =====
-- A JSON writer and reader: a value is written as the steps of a machine that
-- builds it on a stack, each step as two code points from 20000 on.
use second_eye.Prelude.{
  ℕ, ◌+◌, ◌-◌, ◌≡◌, refl, ◌∙◌, true, false, List, [], ◌∷◌, arith, ◌==◌, nat_eq, if◌then◌else◌,
}
use second_eye.Prelude.Text.{Text}
use second_eye.Json.{
  Json, null, bool, int, neg, flt, str, arr, obj, Items, nil, cons, Fields, end, field,
}

pub data Op : Type 0 where
  op_null op_bool op_int op_neg op_flt op_str op_arr op_obj op_nil op_cons op_end op_field op_empty
        op_char :
      Op

pub data Value : Type 0 where
  json : Json → Value
  items : Items → Value
  fields : Fields → Value
  text : Text → Value

unfoldable pub code_of : Op → ℕ
code_of op_null = 20000
code_of op_bool = 20001
code_of op_int = 20002
code_of op_neg = 20003
code_of op_flt = 20004
code_of op_str = 20005
code_of op_arr = 20006
code_of op_obj = 20007
code_of op_nil = 20008
code_of op_cons = 20009
code_of op_end = 20010
code_of op_field = 20011
code_of op_empty = 20012
code_of op_char = 20013

op_of : ℕ → Op
op_of k =
    if k == 20000
    then op_null
    else if k == 20001
    then op_bool
    else if k == 20002
    then op_int
    else if k == 20003
    then op_neg
    else if k == 20004
    then op_flt
    else if k == 20005
    then op_str
    else if k == 20006
    then op_arr
    else if k == 20007
    then op_obj
    else if k == 20008
    then op_nil
    else if k == 20009
    then op_cons
    else if k == 20010
    then op_end
    else if k == 20011
    then op_field
    else if k == 20012
    then op_empty
    else op_char

op_of-code_of : (o : Op) → op_of (code_of o) ≡ o
unfolding op_of code_of nat_eq
op_of-code_of op_null = refl
op_of-code_of op_bool = refl
op_of-code_of op_int = refl
op_of-code_of op_neg = refl
op_of-code_of op_flt = refl
op_of-code_of op_str = refl
op_of-code_of op_arr = refl
op_of-code_of op_obj = refl
op_of-code_of op_nil = refl
op_of-code_of op_cons = refl
op_of-code_of op_end = refl
op_of-code_of op_field = refl
op_of-code_of op_empty = refl
op_of-code_of op_char = refl

step : Op → ℕ → List Value → List Value
step op_null p st = json null ∷ st
step op_bool p st = json (bool (p == 1)) ∷ st
step op_int p st = json (int p) ∷ st
step op_neg p st = json (neg p) ∷ st
step op_flt p st = json (flt (record { bits = p })) ∷ st
step op_str p (text t ∷ st) = json (str t) ∷ st
step op_arr p (items vs ∷ st) = json (arr vs) ∷ st
step op_obj p (fields fs ∷ st) = json (obj fs) ∷ st
step op_nil p st = items nil ∷ st
step op_cons p (items vs ∷ json v ∷ st) = items (cons v vs) ∷ st
step op_end p st = fields end ∷ st
step op_field p (fields fs ∷ json v ∷ text k ∷ st) = fields (field k v fs) ∷ st
step op_empty p st = text [] ∷ st
step op_char p (text t ∷ st) = text (p ∷ t) ∷ st
step _ p st = st

pub run : Text → List Value → List Value
run (k ∷ p ∷ rest) st = run rest (step (op_of k) (p - 20000) st)
run _ st = st

-- with no step left the stack stands
pub run-nil : (st : List Value) → run [] st ≡ st
unfolding run
run-nil st = refl

abbrev pub emit : Op → ℕ → Text → Text
emit o p rest = code_of o ∷ (p + 20000) ∷ rest

run-emit :
    (o : Op) (p : ℕ) (rest : Text) (st : List Value)
    → run (emit o p rest) st ≡ run rest (step o p st)
unfolding run
run-emit o p rest st =
    let back : (p + 20000) - 20000 ≡ p = omega arith in rw (op_of-code_of o, back) refl

unfoldable pub write_text : Text → Text → Text
write_text [] rest = emit op_empty 0 rest
write_text (k ∷ t) rest = write_text t (emit op_char k rest)

run-write_text :
    (t rest : Text) (st : List Value) → run (write_text t rest) st ≡ run rest (text t ∷ st)
unfolding write_text
run-write_text [] rest st = unfold step in run-emit op_empty 0 rest st
run-write_text (k ∷ t) rest st =
    run-write_text t (emit op_char k rest) st
    ∙ (unfold step in run-emit op_char k rest (text t ∷ st))

unfoldable mutual
  pub write : Json → Text → Text
  write null rest = emit op_null 0 rest
  write (bool b) rest = emit op_bool (if b then 1 else 0) rest
  write (int n) rest = emit op_int n rest
  write (neg n) rest = emit op_neg n rest
  write (flt x) rest = emit op_flt x.bits rest
  write (str t) rest = write_text t (emit op_str 0 rest)
  write (arr vs) rest = write_items vs (emit op_arr 0 rest)
  write (obj fs) rest = write_fields fs (emit op_obj 0 rest)

  pub write_items : Items → Text → Text
  write_items nil rest = emit op_nil 0 rest
  write_items (cons v vs) rest = write v (write_items vs (emit op_cons 0 rest))

  pub write_fields : Fields → Text → Text
  write_fields end rest = emit op_end 0 rest
  write_fields (field k v fs) rest = write_text k (write v (write_fields fs (emit op_field 0 rest)))

mutual
  unfolding write step nat_eq

  run-write :
      (v : Json) (rest : Text) (st : List Value) → run (write v rest) st ≡ run rest (json v ∷ st)
  run-write null rest st = run-emit op_null 0 rest st
  run-write (bool true) rest st = run-emit op_bool 1 rest st
  run-write (bool false) rest st = run-emit op_bool 0 rest st
  run-write (int n) rest st = run-emit op_int n rest st
  run-write (neg n) rest st = run-emit op_neg n rest st
  run-write (flt x) rest st = run-emit op_flt x.bits rest st
  run-write (str t) rest st =
      run-write_text t (emit op_str 0 rest) st ∙ (run-emit op_str 0 rest (text t ∷ st))
  run-write (arr vs) rest st =
      run-write_items vs (emit op_arr 0 rest) st ∙ (run-emit op_arr 0 rest (items vs ∷ st))
  run-write (obj fs) rest st =
      run-write_fields fs (emit op_obj 0 rest) st ∙ (run-emit op_obj 0 rest (fields fs ∷ st))

  run-write_items :
      (vs : Items) (rest : Text) (st : List Value)
      → run (write_items vs rest) st ≡ run rest (items vs ∷ st)
  run-write_items nil rest st = run-emit op_nil 0 rest st
  run-write_items (cons v vs) rest st =
      run-write v (write_items vs (emit op_cons 0 rest)) st
      ∙ run-write_items vs (emit op_cons 0 rest) (json v ∷ st)
      ∙ (run-emit op_cons 0 rest (items vs ∷ json v ∷ st))

  pub run-write_fields :
      (fs : Fields) (rest : Text) (st : List Value)
      → run (write_fields fs rest) st ≡ run rest (fields fs ∷ st)
  run-write_fields end rest st = run-emit op_end 0 rest st
  run-write_fields (field k v fs) rest st =
      run-write_text k (write v (write_fields fs (emit op_field 0 rest))) st
      ∙ run-write v (write_fields fs (emit op_field 0 rest)) (text k ∷ st)
      ∙ run-write_fields fs (emit op_field 0 rest) (json v ∷ text k ∷ st)
      ∙ (run-emit op_field 0 rest (fields fs ∷ json v ∷ text k ∷ st))
