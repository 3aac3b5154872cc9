-- ===== src/Manifest/Indices.antt =====
-- Entries found again by their index, where the indices are distinct.
use second_eye.Prelude.{
  ℕ, zero, suc, ◌<◌, ◌+◌, ◌≤◌, ◌≡◌, refl, sym, ap, ◌∙◌, Bool, true, false, ◌&&◌, ◌||◌, List, [],
  ◌∷◌, ◌++◌, arith, All, filter, leb, ◌==◌, nat_eq, list_eq, contains, Distinct, Bool-cases, inl,
  inr,
}
use second_eye.Prelude.Sort.{sort_by, insert_by, IsSorted, sort_by-IsSorted}
use second_eye.Classify.{ClassifiedEntry}
use second_eye.Classify.Laws.{count_from}
use second_eye.Redirect.{indices}

module _ {ℓ} {A : Type ℓ} (key : A → ℕ) (p : A → Bool) where
  below_trans :
      (x y : A) (ys : List A)
      → key x ≤ key y
      → All (λ z. key y ≤ key z) ys
      → All (λ z. key x ≤ key z) ys
  below_trans x y [] le h = tt
  below_trans x y (z ∷ ys) le h = (omega arith, below_trans x y ys le h.1)

  filter_below :
      (x : A) (ys : List A) → All (λ y. key x ≤ key y) ys → All (λ y. key x ≤ key y) (filter p ys)
  filter_below x [] h = tt
  filter_below x (y ∷ ys) h = elim (Bool-cases (p y)) [
    | inl kept ↦ rw kept (h.0, filter_below x ys h.1)
    | inr left ↦ rw left (filter_below x ys h.1)
  ]

  insert_by_below :
      (x : A) (xs : List A) → All (λ y. key x ≤ key y) xs → insert_by key x xs ≡ x ∷ xs
  unfolding insert_by
  insert_by_below x [] h = refl
  insert_by_below x (y ∷ ys) h = ground arith

  filter-insert_by_kept :
      (x : A) (ys : List A)
      → p x ≡ true
      → IsSorted key ys
      → filter p (insert_by key x ys) ≡ insert_by key x (filter p ys)
  unfolding insert_by
  filter-insert_by_kept x [] kept h = rw kept refl
  filter-insert_by_kept x (y ∷ ys) kept h = elim (Bool-cases (leb (key x) (key y))) [
    | inl first ↦
        let le : key x ≤ key y = ground arith in
        let low = filter_below x (y ∷ ys) (le, below_trans x y ys le h.0) in
        rw (first, kept) (sym (insert_by_below x (filter p (y ∷ ys)) low))
    | inr later ↦ elim (Bool-cases (p y)) [
      | inl in_ ↦ rw (later, in_) (rw later (ap (λ l. y ∷ l) (filter-insert_by_kept x ys kept h.1)))
      | inr out ↦ rw (later, out) (filter-insert_by_kept x ys kept h.1)
    ]
  ]

  filter-insert_by_left :
      (x : A) (ys : List A) → p x ≡ false → filter p (insert_by key x ys) ≡ filter p ys
  unfolding insert_by
  filter-insert_by_left x [] left = rw left refl
  filter-insert_by_left x (y ∷ ys) left = elim (Bool-cases (leb (key x) (key y))) [
    | inl first ↦ rw (first, left) refl
    | inr later ↦ elim (Bool-cases (p y)) [
      | inl kept ↦ rw (later, kept) (ap (λ l. y ∷ l) (filter-insert_by_left x ys left))
      | inr gone ↦ rw (later, gone) (filter-insert_by_left x ys left)
    ]
  ]

  -- sorting and filtering can change places
  pub filter-sort_by : (xs : List A) → filter p (sort_by key xs) ≡ sort_by key (filter p xs)
  unfolding sort_by
  filter-sort_by [] = refl
  filter-sort_by (x ∷ xs) = elim (Bool-cases (p x)) [
    | inl kept ↦
        filter-insert_by_kept x (sort_by key xs) kept (sort_by-IsSorted key xs)
        ∙ rw (filter-sort_by xs, kept) refl
    | inr left ↦ filter-insert_by_left x (sort_by key xs) left ∙ rw left (filter-sort_by xs)
  ]

-- `i` stands in front of `j`
abbrev pub before : List ℕ → ℕ → ℕ → Bool
before [] i j = false
before (k ∷ ks) i j = i == k && contains ks j || before ks i j

contains-before : (ks : List ℕ) (i j : ℕ) → before ks i j ≡ true → contains ks j ≡ true
contains-before [] i j h = cc
contains-before (k ∷ ks) i j h = ground (arith, contains-before ks i j)

-- what stands in front of an index that occurs once stands in the part before it
pub contains_of_before :
    (ps ks : List ℕ) (i j : ℕ)
    → contains ps j ≡ false
    → contains ks j ≡ false
    → before (ps ++ j ∷ ks) i j ≡ true
    → contains ps i ≡ true
contains_of_before [] ks i j h k b = ground (arith, contains-before ks i j)
contains_of_before (p ∷ ps) ks i j h k b = ground (arith, contains_of_before ps ks i j)

abbrev pub index_of : ClassifiedEntry → ℕ
index_of c = c.index

pub contains-indices_filter :
    (p : ClassifiedEntry → Bool) (cs : List ClassifiedEntry) (i : ℕ)
    → contains (indices (filter p cs)) i ≡ true
    → contains (indices cs) i ≡ true
contains-indices_filter p [] i h = h
contains-indices_filter p (c ∷ cs) i h = elim (Bool-cases (p c)) [
  | inl kept ↦
      let h' : (i == c.index || contains (indices (filter p cs)) i) ≡ true = rw kept at h in
      ground (arith, contains-indices_filter p cs i)
  | inr left ↦
      let h' : contains (indices (filter p cs)) i ≡ true = rw left at h in
      ground (arith, contains-indices_filter p cs i h')
]

-- the index of an entry is among those that meet a test exactly when the entry meets it
abbrev Tells : (ClassifiedEntry → Bool) → List ClassifiedEntry → ClassifiedEntry → Type 0
Tells p cs e = contains (indices (filter p cs)) e.index ≡ p e

Tells-grow :
    (p : ClassifiedEntry → Bool) (c : ClassifiedEntry) (cs es : List ClassifiedEntry)
    → contains (indices es) c.index ≡ false
    → All (Tells p cs) es
    → All (Tells p (c ∷ cs)) es
Tells-grow p c cs [] new h = tt
Tells-grow p c cs (e ∷ es) new h =
    let apart : (e.index == c.index) ≡ false = ground arith in
    let head : Tells p (c ∷ cs) e = elim (Bool-cases (p c)) [
      | inl kept ↦ rw (kept, apart) h.0
      | inr left ↦ rw left h.0
    ] in
    (head, Tells-grow p c cs es (ground arith) h.1)

pub filter_tells :
    (p : ClassifiedEntry → Bool) (cs : List ClassifiedEntry)
    → Distinct (indices cs)
    → All (λ e. contains (indices (filter p cs)) e.index ≡ p e) cs
filter_tells p [] h = tt
filter_tells p (c ∷ cs) h =
    let head : Tells p (c ∷ cs) c = elim (Bool-cases (p c)) [
      | inl kept ↦ rw kept (ground arith)
      | inr left ↦ rw left (elim (Bool-cases (contains (indices (filter p cs)) c.index)) [
        | inr out ↦ rw out refl
        | inl in_ ↦ absurd (ground (arith, contains-indices_filter p cs c.index in_))
      ])
    ] in
    (head, Tells-grow p c cs cs h.0 (filter_tells p cs h.1))

pub before-filter :
    (p : ClassifiedEntry → Bool) (cs : List ClassifiedEntry) (i j : ℕ)
    → before (indices (filter p cs)) i j ≡ true
    → before (indices cs) i j ≡ true
before-filter p [] i j h = h
before-filter p (c ∷ cs) i j h = elim (Bool-cases (p c)) [
  | inl kept ↦
      let h' : (i == c.index && contains (indices (filter p cs)) j
            || before (indices (filter p cs)) i j)
          ≡ true =
        rw kept at h in
      ground (arith, before-filter p cs i j, contains-indices_filter p cs j)
  | inr left ↦ ground (arith, before-filter p cs i j (rw left at h))
]

contains-indices_insert_by :
    (key : ClassifiedEntry → ℕ) (c : ClassifiedEntry) (cs : List ClassifiedEntry) (i : ℕ)
    → contains (indices (insert_by key c cs)) i ≡ (i == c.index || contains (indices cs) i)
unfolding insert_by
contains-indices_insert_by key c [] i = refl
contains-indices_insert_by key c (d ∷ cs) i = elim (Bool-cases (leb (key c) (key d))) [
  | inl first ↦ rw first refl
  | inr later ↦ rw (later, contains-indices_insert_by key c cs i) (ground arith)
]

insert_by-Distinct :
    (key : ClassifiedEntry → ℕ) (c : ClassifiedEntry) (cs : List ClassifiedEntry)
    → contains (indices cs) c.index ≡ false
    → Distinct (indices cs)
    → Distinct (indices (insert_by key c cs))
unfolding insert_by
insert_by-Distinct key c [] new h = (refl, tt)
insert_by-Distinct key c (d ∷ cs) new h = elim (Bool-cases (leb (key c) (key d))) [
  | inl first ↦ rw first (new, h)
  | inr later ↦ rw later (
    ground (arith, contains-indices_insert_by key c cs d.index),
    insert_by-Distinct key c cs (ground arith) h.1,
  )
]

pub contains-indices_sort_by :
    (key : ClassifiedEntry → ℕ) (cs : List ClassifiedEntry) (i : ℕ)
    → contains (indices (sort_by key cs)) i ≡ contains (indices cs) i
unfolding sort_by
contains-indices_sort_by key [] i = refl
contains-indices_sort_by key (c ∷ cs) i =
    ground (
      arith,
      contains-indices_insert_by key c (sort_by key cs) i,
      contains-indices_sort_by key cs i,
    )

pub sort_by-Distinct :
    (key : ClassifiedEntry → ℕ) (cs : List ClassifiedEntry)
    → Distinct (indices cs)
    → Distinct (indices (sort_by key cs))
unfolding sort_by
sort_by-Distinct key [] h = h
sort_by-Distinct key (c ∷ cs) h =
    insert_by-Distinct key c (sort_by key cs) (contains-indices_sort_by key cs c.index ∙ h.0)
      (sort_by-Distinct key cs h.1)

contains-count_from : (i j n : ℕ) → j < i → contains (count_from i n) j ≡ false
unfolding count_from
contains-count_from i j zero h = refl
contains-count_from i j (suc n) h = ground (arith, contains-count_from (i + 1) j n)

pub count_from-Distinct : (i n : ℕ) → Distinct (count_from i n)
unfolding count_from
count_from-Distinct i zero = tt
count_from-Distinct i (suc n) =
    (contains-count_from (i + 1) i n (omega arith), count_from-Distinct (i + 1) n)
