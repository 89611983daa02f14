-- ===== src/Storage/Table/Laws.antt =====
-- What a table returns after a write, and what a write leaves alone.
use mathlib.Core.Option.{some-injective}
use contract_evidence_os.Prelude.{
  mem-append_left, mem-append_right, mem-tail, Memᴰ, All-mem, All-of_mem, ◌⊎◌, All-map, Bool-cases,
  subst, inl, inr, String, ◌≡◌, refl, true, false, none, some, List, [], ◌∷◌, ◌++◌, ◌==◌, eq_iff,
  ==_refl, arith, if◌then◌else◌, All, All-append,
}
use contract_evidence_os.Storage.Table.{find_row, delete_row, insert_or_replace, backwards}

module _ {A : Type 0} (key : A → String) where
  find_row-append_self :
      (k : String) (v : A) (rows : List A)
      → find_row key k rows ≡ none
      → find_row key k (rows ++ (v ∷ [])) ≡ (if key v == k then some v else none)
  unfolding find_row
  find_row-append_self k v [] h = refl
  find_row-append_self k v (x ∷ xs) h = ground (arith, find_row-append_self k v xs)

  find_row-append_ne :
      (k : String) (v : A) (rows : List A)
      → (key v == k) ≡ false
      → find_row key k (rows ++ (v ∷ [])) ≡ find_row key k rows
  unfolding find_row
  find_row-append_ne k v [] h = rw h
  find_row-append_ne k v (x ∷ xs) h = ground (arith, find_row-append_ne k v xs h)

  pub find_row-delete_row :
      (k j : String) (rows : List A)
      → find_row key j (delete_row key k rows) ≡ (if k == j then none else find_row key j rows)
  unfolding find_row delete_row
  find_row-delete_row k j [] = ground arith
  find_row-delete_row k j (x ∷ xs) =
      ground (arith, find_row-delete_row k j xs, eq_iff (key x) k, eq_iff (key x) j, eq_iff k j)

  -- A lookup after a write sees the written row at its key, and elsewhere what it saw before.
  pub find_row-insert_or_replace :
      (k : String) (v : A) (rows : List A)
      → find_row key k (insert_or_replace key v rows)
        ≡ (if key v == k then some v else find_row key k rows)
  unfolding insert_or_replace
  find_row-insert_or_replace k v rows = ground (
    arith,
    find_row-append_self k v (delete_row key (key v) rows),
    find_row-append_ne k v (delete_row key (key v) rows),
    find_row-delete_row (key v) k rows,
  )

  delete_row-All {κ} :
      (P : A → Type κ) (k : String) (rows : List A) → All P rows → All P (delete_row key k rows)
  unfolding delete_row
  delete_row-All P k [] h = tt
  delete_row-All P k (x ∷ xs) (hx, h) =
      elim (key x == k)
        as (λ b. All P (if b then delete_row key k xs else x ∷ delete_row key k xs)) [
          | true ↦ delete_row-All P k xs h
          | false ↦ (hx, delete_row-All P k xs h)
        ]

  delete_row-All_ne {κ} :
      (P : A → Type κ) (k : String) (rows : List A)
      → All P rows
      → All (λ x. P x × ((key x == k) ≡ false)) (delete_row key k rows)
  unfolding delete_row
  delete_row-All_ne P k [] h = tt
  delete_row-All_ne P k (x ∷ xs) (hx, h) = elim (Bool-cases (key x == k)) [
    | inl t ↦ rw t (delete_row-All_ne P k xs h)
    | inr f ↦ rw f ((hx, f), delete_row-All_ne P k xs h)
  ]

  -- After a write, what holds of the new row and follows for the rows with other keys holds of all.
  pub insert_or_replace-All_ne {κ μ} :
      (P : A → Type κ) (Q : A → Type μ) (v : A) (rows : List A)
      → All P rows
      → Q v
      → ((x : A) → P x → (key x == key v) ≡ false → Q x)
      → All Q (insert_or_replace key v rows)
  unfolding insert_or_replace
  insert_or_replace-All_ne P Q v rows h hv step =
      All-append Q (delete_row key (key v) rows) (v ∷ [])
        (All-map (λ x (hx, ne). step x hx ne) (delete_row key (key v) rows)
          (delete_row-All_ne P (key v) rows h))
        (hv, tt)

  -- What holds of every row and of the new one holds after the write.
  pub insert_or_replace-All {κ} :
      (P : A → Type κ) (v : A) (rows : List A)
      → P v
      → All P rows
      → All P (insert_or_replace key v rows)
  unfolding insert_or_replace
  insert_or_replace-All P v rows hv h =
      All-append P (delete_row key (key v) rows) (v ∷ []) (delete_row-All P (key v) rows h) (hv, tt)

  pub find_row-All {κ} :
      (P : A → Type κ) (k : String) (rows : List A) (v : A)
      → All P rows
      → find_row key k rows ≡ some v
      → P v
  unfolding find_row
  find_row-All P k [] v h e = absurd (cc)
  find_row-All P k (x ∷ xs) v (hx, h) e = elim (Bool-cases (key x == k)) [
    | inl same ↦ subst P (some-injective x v (rw same at e)) hx
    | inr other ↦ find_row-All P k xs v h (rw other at e)
  ]

  pub key-find_row : (k : String) (rows : List A) (v : A) → find_row key k rows ≡ some v → key v ≡ k
  unfolding find_row
  key-find_row k [] v e = cc
  key-find_row k (x ∷ xs) v e = ground (arith, key-find_row k xs v, eq_iff (key x) k)

  pub find_row-mem :
      (rows : List A) {x : A} → Memᴰ x rows → (y : A) × (find_row key (key x) rows ≡ some y)
  unfolding find_row
  find_row-mem [] m = elim m [ ]
  find_row-mem (y ∷ xs) (Memᴰ.head e) = (y, rw (e, ==_refl) refl)
  find_row-mem (y ∷ xs) {x} (Memᴰ.tail m) = elim (Bool-cases (key y == key x)) [
    | inl t ↦ (y, rw t refl)
    | inr f ↦ let (z, e) = find_row-mem xs m in (z, rw f e)
  ]

  -- A row of the table after a write is the new row, or an old one with another key.
  pub mem-insert_or_replace :
      (v : A) (rows : List A) {x : A}
      → Memᴰ x (insert_or_replace key v rows)
      → (x ≡ v) ⊎ (Memᴰ x rows × ((key x == key v) ≡ false))
  mem-insert_or_replace v rows {x} m =
      All-mem (λ z. (z ≡ v) ⊎ (Memᴰ z rows × ((key z == key v) ≡ false)))
        (insert_or_replace key v rows)
        (insert_or_replace-All_ne (λ z. Memᴰ z rows) _ v rows (All-of_mem _ rows (λ z i. i))
          (inl refl) (λ z i ne. inr (i, ne)))
        m

  mem-append_self : (v : A) (rows : List A) → Memᴰ v (rows ++ (v ∷ []))
  mem-append_self v [] = Memᴰ.head refl
  mem-append_self v (x ∷ xs) = Memᴰ.tail (mem-append_self v xs)

  pub insert_or_replace-mem : (v : A) (rows : List A) → Memᴰ v (insert_or_replace key v rows)
  unfolding insert_or_replace
  insert_or_replace-mem v rows = mem-append_self v (delete_row key (key v) rows)

  mem-delete_other :
      (k : String) (rows : List A) {x : A}
      → Memᴰ x rows
      → (key x == k) ≡ false
      → Memᴰ x (delete_row key k rows)
  unfolding delete_row
  mem-delete_other k [] m f = elim m [ ]
  mem-delete_other k (y ∷ ys) {x} (Memᴰ.head e) f =
      rw (subst (λ z. (key z == k) ≡ false) e f) (Memᴰ.head e)
  mem-delete_other k (y ∷ ys) (Memᴰ.tail m) f = elim (Bool-cases (key y == k)) [
    | inl t ↦ rw t (mem-delete_other k ys m f)
    | inr g ↦ rw g (Memᴰ.tail (mem-delete_other k ys m f))
  ]

  -- A row with another key outlives the write.
  pub mem-insert_other :
      (v : A) (rows : List A) {x : A}
      → Memᴰ x rows
      → (key x == key v) ≡ false
      → Memᴰ x (insert_or_replace key v rows)
  unfolding insert_or_replace
  mem-insert_other v rows m f =
      mem-append_left (delete_row key (key v) rows) (v ∷ []) (mem-delete_other (key v) rows m f)

mem-snoc : {A : Type 0} {x y : A} (xs : List A) → Memᴰ x (xs ++ (y ∷ [])) → Memᴰ x xs ⊎ (x ≡ y)
mem-snoc [] m = elim (mem-tail m) [ inl e ↦ inr e | inr n ↦ elim n [ ] ]
mem-snoc (z ∷ xs) m = elim (mem-tail m) [
  | inl e ↦ inl (Memᴰ.head e)
  | inr m' ↦ elim (mem-snoc xs m') [ inl k ↦ inl (Memᴰ.tail k) | inr e ↦ inr e ]
]

pub mem-backwards : {A : Type 0} {x : A} (xs : List A) → Memᴰ x (backwards xs) → Memᴰ x xs
unfolding backwards
mem-backwards [] m = m
mem-backwards (y ∷ xs) m = elim (mem-snoc (backwards xs) m) [
  | inl k ↦ Memᴰ.tail (mem-backwards xs k)
  | inr e ↦ Memᴰ.head e
]

pub backwards-mem : {A : Type 0} {x : A} (xs : List A) → Memᴰ x xs → Memᴰ x (backwards xs)
unfolding backwards
backwards-mem [] m = m
backwards-mem (y ∷ xs) m = elim (mem-tail m) [
  | inl e ↦ mem-append_right (backwards xs) (Memᴰ.head e)
  | inr k ↦ mem-append_left (backwards xs) (y ∷ []) (backwards-mem xs k)
]
