-- ===== src/Contracts/Inheritance.antt =====
-- What a lattice holds after a sequence of operations.
use contract_evidence_os.Prelude.{
  ℕ, suc, ◌+◌, ◌≤◌, String, ◌≡◌, refl, sym, ap, ◌∙◌, Bool, true, false, ◌&&◌, ◌||◌, Option, none,
  some, List, [], ◌∷◌, ◌++◌, ◌==◌, eq_iff, contains, dict_get, dict_set, if◌then◌else◌, Bool-cases,
  inl, inr, arith,
}
use contract_evidence_os.Base.Json.Dict.{swap_tests}
use contract_evidence_os.Contracts.{
  TaskContract, ContractLattice, add_new, set_default, children, create_root, attach_subcontract,
  register_conflict,
}

-- An operation on the lattice: a parent with its subcontract, or the contract in conflict.
pub data Change : Type 0 where
  attach : TaskContract → TaskContract → Change
  conflict : String → Change

unfoldable pub apply_change : Change → ContractLattice → ContractLattice
apply_change (attach parent subcontract) l = attach_subcontract l parent subcontract
apply_change (conflict contract_id) l = register_conflict l contract_id

unfoldable pub apply_all : List Change → ContractLattice → ContractLattice
apply_all [] l = l
apply_all (change ∷ changes) l = apply_all changes (apply_change change l)

-- The operation attaches `c` to `p`.
abbrev pub attaches : String → String → Change → Bool
attaches p c (attach parent subcontract) = parent.contract_id == p && subcontract.contract_id == c
attaches p c (conflict contract_id) = false

unfoldable pub some_attaches : String → String → List Change → Bool
some_attaches p c [] = false
some_attaches p c (change ∷ changes) = attaches p c change || some_attaches p c changes

unfoldable pub occurrences : String → List String → ℕ
occurrences k [] = 0
occurrences k (x ∷ xs) = let rest = occurrences k xs in if x == k then suc rest else rest

-- One when the test holds, and none otherwise.
abbrev pub once : Bool → ℕ
once b = if b then 1 else 0

occurrences-found : (k : String) (xs : List String) → contains k xs ≡ true → 1 ≤ occurrences k xs
unfolding contains occurrences
occurrences-found k [] h = ground arith
occurrences-found k (x ∷ xs) h = elim (Bool-cases (x == k)) [
  | inl t ↦ rw t (ground arith)
  | inr f ↦ let h' = rw f at h in rw f (occurrences-found k xs h')
]

occurrences-missing : (k : String) (xs : List String) → contains k xs ≡ false → occurrences k xs ≡ 0
unfolding contains occurrences
occurrences-missing k [] h = refl
occurrences-missing k (x ∷ xs) h = elim (Bool-cases (x == k)) [
  | inl t ↦ absurd (let h' = rw t at h in cc)
  | inr f ↦ let h' = rw f at h in rw f (occurrences-missing k xs h')
]

occurrences-append :
    (k x : String) (xs : List String)
    → occurrences k (xs ++ (x ∷ [])) ≡ occurrences k xs + once (x == k)
unfolding occurrences
occurrences-append k x [] = elim (Bool-cases (x == k)) [ inl t ↦ rw t refl | inr f ↦ rw f refl ]
occurrences-append k x (y ∷ xs) = elim (Bool-cases (y == k)) [
  | inl t ↦ rw (t, occurrences-append k x xs) (omega arith)
  | inr f ↦ rw (f, occurrences-append k x xs) refl
]

pub occurrences-add_new :
    (k x : String) (xs : List String) (b : Bool)
    → occurrences k xs ≡ once b
    → occurrences k (add_new x xs) ≡ once (x == k || b)
unfolding add_new
occurrences-add_new k x xs b h = elim (Bool-cases (contains x xs)) [
  | inl held ↦ rw held (elim (Bool-cases (x == k)) [
    | inl t ↦
        let same = (eq_iff x k).0 t in
        let found = occurrences-found k xs (ap (λ z. contains z xs) (sym same) ∙ held) in
        rw t (elim (Bool-cases b) [
          | inl holds ↦ let h' = rw holds at h in h'
          | inr fails ↦ absurd (let h' = rw fails at h in omega arith)
        ])
    | inr f ↦ rw f h
  ])
  | inr new ↦
      rw (new, occurrences-append k x xs)
        (elim (Bool-cases (x == k)) [
          | inl t ↦
              let same = (eq_iff x k).0 t in
              let missing = occurrences-missing k xs (ap (λ z. contains z xs) (sym same) ∙ new) in
              rw (t, missing) refl
          | inr f ↦ rw f (ground (arith, h))
        ])
]

get-set :
    (k j : String) (v : List String) (d : List (String × List String))
    → dict_get k (dict_set j v d) ≡ (if j == k then some v else dict_get k d)
unfolding dict_get dict_set
get-set k j v [] = refl
get-set k j v ((i, u) ∷ d) = elim (Bool-cases (i == j)) [
  | inl t ↦
      let same = (eq_iff i j).0 t in
      rw (t, dict_get, same) (elim (Bool-cases (j == k)) [ inl q ↦ rw q refl | inr q ↦ rw q refl ])
  | inr f ↦ rw (f, dict_get, get-set k j v d) (swap_tests i j k (some u) (some v) (dict_get k d) f)
]

children-set_default :
    (p k : String) (d : List (String × List String)) → children p (set_default k d) ≡ children p d
unfolding set_default
children-set_default p k d = go (dict_get k d) refl
  where
    go :
        (held : Option (List String))
        → dict_get k d ≡ held
        → children p (elim held [ none ↦ dict_set k [] d | some v ↦ d ]) ≡ children p d
    go (some v) e = refl
    go none e = rw (get-set p k [] d) (elim (Bool-cases (k == p)) [
      | inl t ↦
          let same = (eq_iff k p).0 t in
          let e' = ap (λ z. dict_get z d) (sym same) ∙ e in rw (t, e') refl
      | inr f ↦ rw f refl
    ])

children-added :
    (p k x : String) (d : List (String × List String))
    → children p (if contains x (children k d) then d else dict_set k (children k d ++ (x ∷ [])) d)
      ≡ (if k == p then add_new x (children p d) else children p d)
unfolding add_new
children-added p k x d = elim (Bool-cases (contains x (children k d))) [
  | inl held ↦ rw held (elim (Bool-cases (k == p)) [
    | inl t ↦
        let same = (eq_iff k p).0 t in
        let held' = ap (λ z. contains x (children z d)) (sym same) ∙ held in rw (t, held') refl
    | inr f ↦ rw f refl
  ])
  | inr new ↦
      rw (new, get-set p k (children k d ++ (x ∷ [])) d)
        (elim (Bool-cases (k == p)) [
          | inl t ↦
              let same = (eq_iff k p).0 t in
              let new' = ap (λ z. contains x (children z d)) (sym same) ∙ new in
              rw (t, new') (ap (λ z. children z d ++ (x ∷ [])) same)
          | inr f ↦ rw f refl
        ])
]

children-attach :
    (p : String) (l : ContractLattice) (parent subcontract : TaskContract)
    → children p (attach_subcontract l parent subcontract).inheritance ≡ (
        if parent.contract_id == p
        then add_new subcontract.contract_id (children p l.inheritance)
        else children p l.inheritance)
unfolding attach_subcontract
children-attach p l parent subcontract =
    let k = parent.contract_id in
    let x = subcontract.contract_id in
    let same = children-set_default p k l.inheritance in
    children-added p k x (set_default k l.inheritance)
    ∙ ap (λ z. if k == p then add_new x z else z) same

-- One operation: `c` stands under `p` once more exactly when it is attached there.
occurrences-change :
    (p c : String) (change : Change) (l : ContractLattice) (b : Bool)
    → occurrences c (children p l.inheritance) ≡ once b
    → occurrences c (children p (apply_change change l).inheritance)
      ≡ once (attaches p c change || b)
unfolding apply_change register_conflict
occurrences-change p c (conflict contract_id) l b h = h
occurrences-change p c (attach parent subcontract) l b h =
    rw (children-attach p l parent subcontract) (elim (Bool-cases (parent.contract_id == p)) [
      | inl t ↦ rw t (occurrences-add_new c subcontract.contract_id (children p l.inheritance) b h)
      | inr f ↦ rw f h
    ])

reorder_tests : (a b c : Bool) → (a || b) || c ≡ b || (a || c)
reorder_tests a b c = elim (Bool-cases a) [
  | inl t ↦ elim (Bool-cases b) [ inl u ↦ rw (t, u) refl | inr u ↦ rw (t, u) refl ]
  | inr f ↦ elim (Bool-cases b) [ inl u ↦ rw (f, u) refl | inr u ↦ rw (f, u) refl ]
]

occurrences-changes :
    (p c : String) (changes : List Change) (l : ContractLattice) (b : Bool)
    → occurrences c (children p l.inheritance) ≡ once b
    → occurrences c (children p (apply_all changes l).inheritance)
      ≡ once (b || some_attaches p c changes)
unfolding apply_all some_attaches
occurrences-changes p c [] l b h = elim (Bool-cases b) [
  | inl t ↦ rw t (let h' = rw t at h in h')
  | inr f ↦ rw f (let h' = rw f at h in h')
]
occurrences-changes p c (change ∷ changes) l b h =
    let step = occurrences-change p c change l b h in
    let rest =
      occurrences-changes p c changes (apply_change change l) (attaches p c change || b) step in
    rest ∙ ap once (reorder_tests (attaches p c change) b (some_attaches p c changes))

-- However attachments and conflicts follow the creation of a lattice, the children of a contract
-- are exactly the contracts that some operation attached to it, each listed once, however often
-- it was attached.
pub children_are_attached :
    (p c version : String) (root : TaskContract) (changes : List Change)
    → occurrences c (children p (apply_all changes (create_root version root)).inheritance)
      ≡ once (some_attaches p c changes)
unfolding create_root dict_get occurrences
children_are_attached p c version root changes =
    occurrences-changes p c changes (create_root version root) false
      (elim (Bool-cases (root.contract_id == p)) [ inl t ↦ rw t refl | inr f ↦ rw f refl ])
