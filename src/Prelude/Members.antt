-- ===== src/Prelude/Members.antt =====
-- Membership in a list that is sorted, selected from or searched.
use mathlib.Core.Path.{◌≡◌, refl, sym, subst, ap}
use mathlib.Core.Bool.{Bool, true, false, ◌||◌}
use mathlib.Core.Option.{Option, none, some, some-injective}
use mathlib.Core.List.{List, [], ◌∷◌, ◌++◌, map, Memᴰ}
use mathlib.Core.Logic.{◌⊎◌, inl, inr}
use Prim.Native.String.{String}
use text.Mathlib.Text.{◌==◌}
use native.Mathlib.Omega.{arith}
use contract_evidence_os.Prelude.Tests.{if◌then◌else◌, Bool-cases, ==_refl}
use contract_evidence_os.Prelude.Lists.{All, select, head?, contains}
use contract_evidence_os.Prelude.Sorting.{insert_by, sort_by, IsOrdered, sort_by-IsOrdered}

-- The first element that satisfies a test.
unfoldable pub first {ℓ} : {A : Type ℓ} → (A → Bool) → List A → Option A
first p [] = none
first p (x ∷ xs) = let rest = first p xs in if p x then some x else rest

module _ {ℓ} {A : Type ℓ} where
  pub All-mem {κ} : (P : A → Type κ) (xs : List A) {x : A} → All P xs → Memᴰ x xs → P x
  All-mem P [] h m = elim m [ ]
  All-mem P (y ∷ ys) h (Memᴰ.head e) = subst P (sym e) h.0
  All-mem P (y ∷ ys) h (Memᴰ.tail m) = All-mem P ys h.1 m

  pub All-of_mem {κ} : (P : A → Type κ) (xs : List A) → ((x : A) → Memᴰ x xs → P x) → All P xs
  All-of_mem P [] h = tt
  All-of_mem P (y ∷ ys) h = (h y (Memᴰ.head refl), All-of_mem P ys (λ x m. h x (Memᴰ.tail m)))

  pub head-All {κ} : (P : A → Type κ) (xs : List A) {x : A} → All P xs → head? xs ≡ some x → P x
  head-All P [] h e = absurd (cc)
  head-All P (y ∷ ys) {x} h e = subst P (some-injective y x e) h.0

  pub mem-tail : {x y : A} {ys : List A} → Memᴰ x (y ∷ ys) → (x ≡ y) ⊎ Memᴰ x ys
  mem-tail (Memᴰ.head e) = inl e
  mem-tail (Memᴰ.tail m) = inr m

  pub mem-append_left : {x : A} (xs ys : List A) → Memᴰ x xs → Memᴰ x (xs ++ ys)
  mem-append_left [] ys m = elim m [ ]
  mem-append_left (z ∷ xs) ys (Memᴰ.head e) = Memᴰ.head e
  mem-append_left (z ∷ xs) ys (Memᴰ.tail m) = Memᴰ.tail (mem-append_left xs ys m)

  pub mem-append_right : {x : A} (xs : List A) {ys : List A} → Memᴰ x ys → Memᴰ x (xs ++ ys)
  mem-append_right [] m = m
  mem-append_right (z ∷ xs) m = Memᴰ.tail (mem-append_right xs m)

  mem-cons_if :
      (b : Bool) (y : A) (ys : List A) {x : A}
      → Memᴰ x (if b then y ∷ ys else ys)
      → ((b ≡ true) × (x ≡ y)) ⊎ Memᴰ x ys
  mem-cons_if true y ys (Memᴰ.head e) = inl (refl, e)
  mem-cons_if true y ys (Memᴰ.tail m) = inr m
  mem-cons_if false y ys m = inr m

  pub mem-select :
      (p : A → Bool) (xs : List A) {x : A} → Memᴰ x (select p xs) → Memᴰ x xs × (p x ≡ true)
  unfolding select
  mem-select p [] m = elim m [ ]
  mem-select p (y ∷ ys) m = elim (mem-cons_if (p y) y (select p ys) m) [
    | inl (t, e) ↦ (Memᴰ.head e, subst (λ z. p z ≡ true) (sym e) t)
    | inr m' ↦ let (i, h) = mem-select p ys m' in (Memᴰ.tail i, h)
  ]

  pub select-mem :
      (p : A → Bool) (xs : List A) {x : A} → Memᴰ x xs → p x ≡ true → Memᴰ x (select p xs)
  unfolding select
  select-mem p [] m h = elim m [ ]
  select-mem p (y ∷ ys) (Memᴰ.head e) h = rw (subst (λ z. p z ≡ true) e h) (Memᴰ.head e)
  select-mem p (y ∷ ys) (Memᴰ.tail m) h = elim (Bool-cases (p y)) [
    | inl t ↦ rw t (Memᴰ.tail (select-mem p ys m h))
    | inr f ↦ rw f (select-mem p ys m h)
  ]

  pub select_none :
      (p : A → Bool) (xs : List A) → ((x : A) → Memᴰ x xs → p x ≡ false) → select p xs ≡ []
  unfolding select
  select_none p [] h = refl
  select_none p (y ∷ ys) h = rw (h y (Memᴰ.head refl)) (select_none p ys (λ x m. h x (Memᴰ.tail m)))

  pub first-some :
      (p : A → Bool) (xs : List A) (c : A) → first p xs ≡ some c → Memᴰ c xs × (p c ≡ true)
  unfolding first
  first-some p [] c e = absurd (cc)
  first-some p (x ∷ xs) c e = elim (Bool-cases (p x)) [
    | inl t ↦
        let same : x ≡ c = ground arith in (Memᴰ.head (sym same), subst (λ z. p z ≡ true) same t)
    | inr f ↦ let (m, h) = first-some p xs c (ground arith) in (Memᴰ.tail m, h)
  ]

  pub first-none :
      (p : A → Bool) (xs : List A) {x : A} → first p xs ≡ none → Memᴰ x xs → p x ≡ false
  unfolding first
  first-none p [] e m = elim m [ ]
  first-none p (y ∷ ys) e (Memᴰ.head m) = subst (λ z. p z ≡ false) (sym m) (ground arith)
  first-none p (y ∷ ys) e (Memᴰ.tail m) = first-none p ys (ground arith) m

  -- In an ordered list nothing that satisfies the test stands before the first that does.
  pub first_least :
      (before : A → A → Bool) (irrefl : (x : A) → before x x ≡ false) (p : A → Bool) (xs : List A)
      (c : A)
      → IsOrdered before xs
      → first p xs ≡ some c
      → {x : A} → Memᴰ x xs
      → p x ≡ true
      → before x c ≡ false
  unfolding first
  first_least before irrefl p [] c o e m h = elim m [ ]
  first_least before irrefl p (y ∷ ys) c (ho, o) e {x} m h = elim (Bool-cases (p y)) [
    | inl t ↦
        let same : y ≡ c = ground arith in
        subst (λ z. before x z ≡ false) same
          (All-mem (λ z. before z y ≡ false) (y ∷ ys) (irrefl y, ho) m)
    | inr f ↦ elim (mem-tail m) [
      | inl i ↦ absurd (let g : p y ≡ true = subst (λ z. p z ≡ true) i h in cc)
      | inr m' ↦ first_least before irrefl p ys c o (ground arith) m' h
    ]
  ]

module _ {ℓ} {A : Type ℓ} (before : A → A → Bool) where
  mem-insert_by :
      (x : A) (xs : List A) {z : A} → Memᴰ z (insert_by before x xs) → (z ≡ x) ⊎ Memᴰ z xs
  unfolding insert_by
  mem-insert_by x [] m = mem-tail m
  mem-insert_by x (y ∷ ys) m = elim (Bool-cases (before y x)) [
    | inl t ↦ elim (mem-tail (rw (t, insert_by) at m)) [
      | inl e ↦ inr (Memᴰ.head e)
      | inr m' ↦ elim (mem-insert_by x ys m') [ inl e ↦ inl e | inr k ↦ inr (Memᴰ.tail k) ]
    ]
    | inr f ↦ mem-tail (rw (f, insert_by) at m)
  ]

  insert_by-mem :
      (x : A) (xs : List A) {z : A} → (z ≡ x) ⊎ Memᴰ z xs → Memᴰ z (insert_by before x xs)
  unfolding insert_by
  insert_by-mem x [] (inl e) = Memᴰ.head e
  insert_by-mem x [] (inr m) = elim m [ ]
  insert_by-mem x (y ∷ ys) s = elim (Bool-cases (before y x)) [
    | inl t ↦ rw t (elim s [
      | inl e ↦ Memᴰ.tail (insert_by-mem x ys (inl e))
      | inr m ↦ elim (mem-tail m) [
        | inl e ↦ Memᴰ.head e
        | inr m' ↦ Memᴰ.tail (insert_by-mem x ys (inr m'))
      ]
    ])
    | inr f ↦ rw f (elim s [ inl e ↦ Memᴰ.head e | inr m ↦ Memᴰ.tail m ])
  ]

  pub mem-sort_by : (xs : List A) {z : A} → Memᴰ z (sort_by before xs) → Memᴰ z xs
  unfolding sort_by
  mem-sort_by [] m = m
  mem-sort_by (x ∷ xs) m = elim (mem-insert_by x (sort_by before xs) m) [
    | inl e ↦ Memᴰ.head e
    | inr m' ↦ Memᴰ.tail (mem-sort_by xs m')
  ]

  pub sort_by-mem : (xs : List A) {z : A} → Memᴰ z xs → Memᴰ z (sort_by before xs)
  unfolding sort_by
  sort_by-mem [] m = m
  sort_by-mem (x ∷ xs) m =
      insert_by-mem x (sort_by before xs)
        (elim (mem-tail m) [ inl e ↦ inl e | inr m' ↦ inr (sort_by-mem xs m') ])

pub mem-map {ℓ κ} :
    {A : Type ℓ} {B : Type κ} (f : A → B) {x : A} (xs : List A) → Memᴰ x xs → Memᴰ (f x) (map f xs)
mem-map f [] m = elim m [ ]
mem-map f (y ∷ ys) (Memᴰ.head e) = Memᴰ.head (ap f e)
mem-map f (y ∷ ys) (Memᴰ.tail m) = Memᴰ.tail (mem-map f ys m)

pub head-Mem {ℓ} : {A : Type ℓ} (xs : List A) {y : A} → head? xs ≡ some y → Memᴰ y xs
head-Mem [] e = absurd (cc)
head-Mem (z ∷ xs) e = Memᴰ.head (sym (ground arith))

-- What is in a list of strings is found in it.
pub contains_mem : {k : String} (xs : List String) → Memᴰ k xs → contains k xs ≡ true
unfolding contains
contains_mem [] m = elim m [ ]
contains_mem {k} (x ∷ xs) (Memᴰ.head e) =
    subst (λ z. (z == k) || contains k xs ≡ true) e (rw (==_refl k) refl)
contains_mem {k} (x ∷ xs) (Memᴰ.tail m) = ground (arith, contains_mem xs m)

-- The first of a sorted list is the element that stands before all the others.
pub head-sort_by {ℓ} :
    {A : Type ℓ} (before : A → A → Bool)
    → ((x y : A) → before x y ≡ true → before y x ≡ false)
    → ((x y z : A) → before y x ≡ false → before z y ≡ false → before z x ≡ false)
    → (v : A) (xs : List A) → Memᴰ v xs
    → ((x : A) → Memᴰ x xs → (x ≡ v) ⊎ (before v x ≡ true))
    → head? (sort_by before xs) ≡ some v
head-sort_by {A} before asym trans v xs m least =
    go (sort_by before xs) (sort_by-IsOrdered before asym trans xs) (sort_by-mem before xs m)
      (λ x i. least x (mem-sort_by before xs i))
  where
    go :
        (ys : List A)
        → IsOrdered before ys
        → Memᴰ v ys
        → ((x : A) → Memᴰ x ys → (x ≡ v) ⊎ (before v x ≡ true))
        → head? ys ≡ some v
    go [] o m least = elim m [ ]
    go (y ∷ ys) (ho, o) m least = elim (mem-tail m) [
      | inl e ↦ ap some (sym e)
      | inr i ↦ elim (least y (Memᴰ.head refl)) [
        | inl e ↦ ap some e
        | inr b ↦
            absurd (let f : before v y ≡ false = All-mem (λ z. before z y ≡ false) ys ho i in cc)
      ]
    ]
