-- ===== src/Listener/Connections.antt =====
-- The count of connections under the limit: `_handle_connection` before and after its work.
use second_eye.Prelude.{
  ℕ, suc, ◌+◌, ◌-◌, ◌≤◌, ◌≡◌, refl, true, List, [], ◌∷◌, arith, length, leb, ◌==◌, nat_eq, contains,
  if◌then◌else◌, Bool-cases, inl, inr,
}
use second_eye.Listener.{Listener}

-- the counter, and the connections that are being handled
pub record Connections : Type 0 where
  pub active_connections : ℕ
  pub handled : List ℕ

-- a new connection: closed at the limit, else counted
unfoldable pub admit : Listener → ℕ → Connections → Connections
admit l id s =
    if leb l.max_connections s.active_connections
    then s
    else record s { active_connections = s.active_connections + 1; handled = id ∷ s.handled }

remove : ℕ → List ℕ → List ℕ
remove id [] = []
remove id (j ∷ js) = let rest = remove id js in if id == j then js else j ∷ rest

-- the `finally` of a connection, whether its handling returned or raised
unfoldable pub release : ℕ → Connections → Connections
unfolding remove
release id s = record s {
  active_connections = s.active_connections - 1;
  handled = remove id s.handled;
}

-- connections begin at any time, and those that are handled end in any order
pub data Step (l : Listener) (s t : Connections) : Type 0 where
  begins : (id : ℕ) → t ≡ admit l id s → Step l s t
  ends : (id : ℕ) → contains s.handled id ≡ true → t ≡ release id s → Step l s t

pub data Steps (l : Listener) (s : Connections) : Connections → Type 0 where
  here : Steps l s s
  next : (t u : Connections) → Steps l s t → Step l t u → Steps l s u

abbrev pub no_connections : Connections
no_connections = record { active_connections = 0; handled = [] }

pub record IsBounded (l : Listener) (s : Connections) : Type 0 where
  pub counted : s.active_connections ≡ length s.handled
  pub bounded : s.active_connections ≤ l.max_connections

length-remove :
    (id : ℕ) (js : List ℕ) → contains js id ≡ true → suc (length (remove id js)) ≡ length js
unfolding remove
length-remove id [] h = cc
length-remove id (j ∷ js) h = elim (Bool-cases (id == j)) [
  | inl same ↦ rw same refl
  | inr other ↦ rw other (omega (arith, length-remove id js (rw other at h)))
]

module _ (l : Listener) where
  admit-IsBounded : (id : ℕ) (s : Connections) → IsBounded l s → IsBounded l (admit l id s)
  unfolding admit
  admit-IsBounded id s h = ground (arith, h.counted, h.bounded)

  release-IsBounded :
      (id : ℕ) (s : Connections)
      → contains s.handled id ≡ true
      → IsBounded l s
      → IsBounded l (release id s)
  unfolding release
  release-IsBounded id s there h = record {
    counted = omega (arith, h.counted, length-remove id s.handled there);
    bounded = omega (arith, h.bounded);
  }

  Step-IsBounded : (s t : Connections) → Step l s t → IsBounded l s → IsBounded l t
  Step-IsBounded s t (begins id e) h = rw e (admit-IsBounded id s h)
  Step-IsBounded s t (ends id there e) h = rw e (release-IsBounded id s there h)

  -- However connections begin and end, the counter is the number of connections that are being
  -- handled, and never above the limit.
  pub Steps-IsBounded : (s : Connections) → Steps l no_connections s → IsBounded l s
  Steps-IsBounded s here = record { counted = refl; bounded = omega arith }
  Steps-IsBounded s (next t u run step) = Step-IsBounded t s step (Steps-IsBounded t run)
