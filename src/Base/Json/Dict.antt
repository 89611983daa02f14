-- ===== src/Base/Json/Dict.antt =====
-- Python's dicts of JSON values: `d.get(k)`, `d[k] = v`, `d.update(patch)`, `list(d.keys())`, and what
-- `json.loads` gives back of `json.dumps(d, sort_keys=True)`.
use mathlib.Core.Option.{map as map_option}
use contract_evidence_os.Prelude.{
  String, ◌≡◌, refl, sym, ◌∙◌, subst, false, Option, none, some, List, [], ◌∷◌, ◌==◌, eq_iff,
  Bool-cases, inl, inr, arith, if◌then◌else◌,
}
use contract_evidence_os.Base.Text.{text_lt, text_lt-ne}
use contract_evidence_os.Base.Json.{
  Json, null, boolean, integer, number, text, array, object, Items, nil, item, Members, end, member,
}

unfoldable pub get_member : String → Members → Option Json
get_member k end = none
get_member k (member j v rest) = if j == k then some v else get_member k rest

unfoldable pub set_member : String → Json → Members → Members
set_member k v end = member k v end
set_member k v (member j u rest) =
    let rest' = set_member k v rest in if j == k then member j v rest else member j u rest'

unfoldable pub update_members : Members → Members → Members
update_members m end = m
update_members m (member k v patch) = update_members (set_member k v m) patch

unfoldable pub keys_of : Members → List String
keys_of end = []
keys_of (member k v rest) = k ∷ keys_of rest

unfoldable pub insert_member : String → Json → Members → Members
insert_member k v end = member k v end
insert_member k v (member j u rest) =
    let rest' = insert_member k v rest in
    if text_lt j k then member j u rest' else member k v (member j u rest)

unfoldable mutual
  -- The value with the keys of its dicts sorted, at every depth.
  pub sorted : Json → Json
  sorted null = null
  sorted (boolean b) = boolean b
  sorted (integer n) = integer n
  sorted (number x) = number x
  sorted (text s) = text s
  sorted (array xs) = array (sorted_items xs)
  sorted (object m) = object (sorted_members m)

  pub sorted_items : Items → Items
  sorted_items nil = nil
  sorted_items (item x xs) = item (sorted x) (sorted_items xs)

  pub sorted_members : Members → Members
  sorted_members end = end
  sorted_members (member k v rest) = insert_member k (sorted v) (sorted_members rest)

-- Two tests for different keys may be made in either order.
pub swap_tests {ℓ} :
    {A : Type ℓ} (i j k : String) (x y z : A)
    → (i == j) ≡ false
    → (if i == k then x else if j == k then y else z)
      ≡ (if j == k then y else if i == k then x else z)
swap_tests i j k x y z ne = elim (Bool-cases (i == k)) [
  | inl a ↦ elim (Bool-cases (j == k)) [
    | inl b ↦ absurd (let same = (eq_iff i j).1 ((eq_iff i k).0 a ∙ sym ((eq_iff j k).0 b)) in cc)
    | inr b ↦ rw (a, b) refl
  ]
  | inr a ↦ rw a refl
]

pub get_member-insert_member :
    (k j : String) (v : Json) (m : Members)
    → get_member k (insert_member j v m) ≡ (if j == k then some v else get_member k m)
unfolding get_member insert_member
get_member-insert_member k j v end = refl
get_member-insert_member k j v (member i u rest) = elim (Bool-cases (text_lt i j)) [
  | inl t ↦
      rw (t, get_member-insert_member k j v rest)
        (swap_tests i j k (some u) (some v) (get_member k rest) (text_lt-ne i j t))
  | inr f ↦ rw f refl
]

-- Sorting changes no lookup, but for the keys inside the value.
pub get_member-sorted_members :
    (k : String) (m : Members)
    → get_member k (sorted_members m) ≡ map_option sorted (get_member k m)
unfolding get_member sorted_members
get_member-sorted_members k end = refl
get_member-sorted_members k (member j v rest) =
    get_member-insert_member k j (sorted v) (sorted_members rest) ∙ elim (Bool-cases (j == k)) [
      | inl t ↦ rw t refl
      | inr f ↦ rw f (get_member-sorted_members k rest)
    ]

pub get_member-set_member :
    (k j : String) (v : Json) (m : Members)
    → get_member k (set_member j v m) ≡ (if j == k then some v else get_member k m)
unfolding get_member set_member
get_member-set_member k j v end = refl
get_member-set_member k j v (member i u rest) = elim (Bool-cases (i == j)) [
  | inl t ↦ rw (t, (eq_iff i j).0 t) (ground arith)
  | inr f ↦
      rw (f, get_member-set_member k j v rest)
        (swap_tests i j k (some u) (some v) (get_member k rest) f)
]

-- No key stands twice.
abbrev pub IsDict : Members → Type 0
IsDict end = Unit
IsDict (member k v rest) = (get_member k rest ≡ none) × IsDict rest

abbrev pub or_else : Option Json → Option Json → Option Json
or_else none x = x
or_else (some v) x = some v

-- After an update, a key has its value in the patch, or its old one if it is not there.
pub get_member-update_members :
    (k : String) (m patch : Members)
    → IsDict patch
    → get_member k (update_members m patch) ≡ or_else (get_member k patch) (get_member k m)
unfolding get_member update_members
get_member-update_members k m end d = refl
get_member-update_members k m (member j v patch) (fresh, d) =
    get_member-update_members k (set_member j v m) patch d ∙ elim (Bool-cases (j == k)) [
      | inl t ↦
          let fresh' = subst (λ z. get_member z patch ≡ none) ((eq_iff j k).0 t) fresh in
          rw (t, fresh', get_member-set_member k j v m) (rw t refl)
      | inr f ↦ rw (f, get_member-set_member k j v m) (rw f refl)
    ]
