-- ===== src/Prelude/Lists.antt =====
-- Lists measured by native numbers, selected by Boolean tests, and predicates on them.
use Prim.Native.Nat.{ℕ, suc, ◌+◌}
use mathlib.Core.Path.{◌≡◌, refl}
use native.Mathlib.Omega.{arith}
use Prim.Native.String.{String}
use mathlib.Core.Bool.{Bool, true, false, ◌||◌, ◌&&◌}
use mathlib.Core.Option.{Option, none, some}
use mathlib.Core.List.{List, [], ◌∷◌, ◌++◌}
use text.Mathlib.Text.{◌==◌}
use contract_evidence_os.Prelude.Tests.{if◌then◌else◌, Bool-cases, ==_refl}
use mathlib.Core.Logic.{inl, inr}

module _ {ℓ} {A : Type ℓ} where
  abbrev pub length : List A → ℕ
  length [] = 0
  length (x ∷ xs) = suc (length xs)

  -- `[x for x in xs if p(x)]`
  unfoldable pub select : (A → Bool) → List A → List A
  select p [] = []
  select p (x ∷ xs) = let rest = select p xs in if p x then x ∷ rest else rest

  -- `any(p(x) for x in xs)`
  unfoldable pub any : (A → Bool) → List A → Bool
  any p [] = false
  any p (x ∷ xs) = p x || any p xs

  -- `all(p(x) for x in xs)`
  unfoldable pub all : (A → Bool) → List A → Bool
  all p [] = true
  all p (x ∷ xs) = p x && all p xs

  abbrev pub head? : List A → Option A
  head? [] = none
  head? (x ∷ xs) = some x

  -- `xs[-1]`
  abbrev pub last? : List A → Option A
  last? [] = none
  last? (x ∷ []) = some x
  last? (x ∷ y ∷ ys) = last? (y ∷ ys)

  abbrev pub All {κ} : (A → Type κ) → List A → Type κ
  All P [] = Unit
  All P (x ∷ xs) = P x × All P xs

  pub All-append {κ} : (P : A → Type κ) (xs ys : List A) → All P xs → All P ys → All P (xs ++ ys)
  All-append P [] ys hx hy = hy
  All-append P (x ∷ xs) ys hx hy = (hx.0, All-append P xs ys hx.1 hy)

  pub All-map {κ μ} :
      {P : A → Type κ} {Q : A → Type μ} (f : (a : A) → P a → Q a) (xs : List A)
      → All P xs
      → All Q xs
  All-map f [] h = tt
  All-map f (x ∷ xs) h = (f x h.0, All-map f xs h.1)

  pub All-tabulate {κ} : (P : A → Type κ) (f : (a : A) → P a) (xs : List A) → All P xs
  All-tabulate P f [] = tt
  All-tabulate P f (x ∷ xs) = (f x, All-tabulate P f xs)

  pub All-select {κ} :
      (P : A → Type κ) (p : A → Bool) (xs : List A) → All P xs → All P (select p xs)
  unfolding select
  All-select P p [] h = tt
  All-select P p (x ∷ xs) (hx, h) =
      elim (p x) as (λ b. All P (if b then x ∷ select p xs else select p xs)) [
        | true ↦ (hx, All-select P p xs h)
        | false ↦ All-select P p xs h
      ]

pub length-append {ℓ} : {A : Type ℓ} (xs ys : List A) → length (xs ++ ys) ≡ length xs + length ys
length-append [] ys = omega arith
length-append (x ∷ xs) ys = omega (arith, length-append xs ys)

-- `sum(f(x) for x in xs)`
unfoldable pub sum_of {ℓ} : {A : Type ℓ} → (A → ℕ) → List A → ℕ
sum_of f [] = 0
sum_of f (x ∷ xs) = f x + sum_of f xs

-- `k in xs`, for a list of strings.
unfoldable pub contains : String → List String → Bool
contains k [] = false
contains k (x ∷ xs) = x == k || contains k xs

-- `d.get(k)`, for a dict with string keys.
unfoldable pub dict_get {ℓ} : {V : Type ℓ} → String → List (String × V) → Option V
dict_get k [] = none
dict_get k ((j, v) ∷ m) = if j == k then some v else dict_get k m

-- `d[k] = v`
unfoldable pub dict_set {ℓ} : {V : Type ℓ} → String → V → List (String × V) → List (String × V)
dict_set k v [] = (k, v) ∷ []
dict_set k v ((j, u) ∷ m) =
    let rest = dict_set k v m in if j == k then (j, v) ∷ m else (j, u) ∷ rest

pub dict_get-dict_set {ℓ} :
    {V : Type ℓ} (k : String) (v : V) (m : List (String × V)) → dict_get k (dict_set k v m) ≡ some v
unfolding dict_get dict_set
dict_get-dict_set k v [] = rw (==_refl k) refl
dict_get-dict_set k v ((j, u) ∷ m) = elim (Bool-cases (j == k)) [
  | inl t ↦ rw (t, dict_get, t) refl
  | inr f ↦ rw (f, dict_get, f) (dict_get-dict_set k v m)
]
