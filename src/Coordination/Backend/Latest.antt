-- ===== src/Coordination/Backend/Latest.antt =====
-- What `latest_lease_ownership` returns after a write, from the epochs of the lease's rows.
use contract_evidence_os.Prelude.{
  ◌<◌, ◌≤◌, String, ◌≡◌, sym, ap, subst, Bool, true, false, none, some, List, [], ◌∷◌, ◌==◌, eq_iff,
  arith, Option-cases, inl, inr, Memᴰ, mem-select, select-mem, mem-sort_by, sort_by-mem,
  sort_by-IsOrdered, IsOrdered, All-mem, select, sort_by, head?, head-sort_by, mem-tail,
}
use mathlib.Core.Option.{some-injective}
use contract_evidence_os.Coordination.Models.{LeaseOwnershipRecord}
use contract_evidence_os.Coordination.Backend.{next_epoch}
use contract_evidence_os.Storage.Table.{insert_or_replace}
use contract_evidence_os.Storage.Table.Laws.{mem-insert_or_replace, insert_or_replace-mem}
use contract_evidence_os.Storage.Repository.{
  Repository, latest_lease_ownership, save_lease_ownership, newer, ownership_key,
}

newer-asym : (a b : LeaseOwnershipRecord) → newer a b ≡ true → newer b a ≡ false
unfolding newer
newer-asym a b h = ground arith

newer_trans :
    (a b c : LeaseOwnershipRecord) → newer b a ≡ false → newer c b ≡ false → newer c a ≡ false
unfolding newer
newer_trans a b c h k = ground arith

newer-epoch : (a b : LeaseOwnershipRecord) → newer b a ≡ false → b.lease_epoch ≤ a.lease_epoch
unfolding newer
newer-epoch a b h = ground arith

epoch-newer : (a b : LeaseOwnershipRecord) → b.lease_epoch < a.lease_epoch → newer a b ≡ true
unfolding newer
epoch-newer a b h = ground arith

module _ (lease_id : String) where
  abbrev pub is_of : LeaseOwnershipRecord → Bool
  is_of o = o.lease_id == lease_id

  head-ordered :
      (ys : List LeaseOwnershipRecord) (c : LeaseOwnershipRecord) {o : LeaseOwnershipRecord}
      → IsOrdered newer ys
      → head? ys ≡ some c
      → Memᴰ o ys
      → Memᴰ c ys × (o.lease_epoch ≤ c.lease_epoch)
  head-ordered [] c h e m = elim m [ ]
  head-ordered (y ∷ ys) c {o} (hy, h) e m =
      let same : y ≡ c = some-injective y c e in
      (
        Memᴰ.head (sym same),
        subst (λ z. o.lease_epoch ≤ z.lease_epoch) same
            (elim (mem-tail m) [
              | inl i ↦ subst (λ z. z.lease_epoch ≤ y.lease_epoch) (sym i) (ground arith)
              | inr k ↦ newer-epoch y o (All-mem (λ z. newer z y ≡ false) ys hy k)
            ]),
      )

  -- The latest ownership of a lease is a row of that lease, and its epoch bounds the others'.
  pub latest_max :
      (r : Repository) (c o : LeaseOwnershipRecord)
      → latest_lease_ownership lease_id r ≡ some c
      → Memᴰ o r.lease_ownerships
      → o.lease_id ≡ lease_id
      → Memᴰ c r.lease_ownerships × (c.lease_id ≡ lease_id) × (o.lease_epoch ≤ c.lease_epoch)
  unfolding latest_lease_ownership
  latest_max r c o h m e =
      let rows = select is_of r.lease_ownerships in
      let (i, le) =
        head-ordered (sort_by newer rows) c (sort_by-IsOrdered newer newer-asym newer_trans rows) h
          (sort_by-mem newer rows
            (select-mem is_of r.lease_ownerships m ((eq_iff o.lease_id lease_id).1 e))) in
      let (k, t) = mem-select is_of r.lease_ownerships (mem-sort_by newer rows i) in
      (k, (eq_iff c.lease_id lease_id).0 t, le)

  head-mem :
      (ys : List LeaseOwnershipRecord) (c : LeaseOwnershipRecord) → head? ys ≡ some c → Memᴰ c ys
  head-mem [] c e = absurd (cc)
  head-mem (y ∷ ys) c e = Memᴰ.head (sym (some-injective y c e))

  pub latest_mem :
      (r : Repository) (c : LeaseOwnershipRecord)
      → latest_lease_ownership lease_id r ≡ some c
      → Memᴰ c r.lease_ownerships × (c.lease_id ≡ lease_id)
  unfolding latest_lease_ownership
  latest_mem r c h =
      let rows = select is_of r.lease_ownerships in
      let (k, t) =
        mem-select is_of r.lease_ownerships
          (mem-sort_by newer rows (head-mem (sort_by newer rows) c h)) in
      (k, (eq_iff c.lease_id lease_id).0 t)

  head-none :
      (ys : List LeaseOwnershipRecord) {o : LeaseOwnershipRecord} → head? ys ≡ none → Memᴰ o ys → ⊥
  head-none [] e m = elim m [ ]
  head-none (y ∷ ys) e m = cc

  -- A lease with a row has a latest ownership.
  pub latest_none :
      (r : Repository) (o : LeaseOwnershipRecord)
      → latest_lease_ownership lease_id r ≡ none
      → Memᴰ o r.lease_ownerships
      → o.lease_id ≡ lease_id
      → ⊥
  unfolding latest_lease_ownership
  latest_none r o h m e =
      let rows = select is_of r.lease_ownerships in
      head-none (sort_by newer rows) h (
        sort_by-mem newer rows
          (select-mem is_of r.lease_ownerships m ((eq_iff o.lease_id lease_id).1 e)))

  -- The epoch that a claim takes is above those of all the rows of the lease.
  pub next_epoch-above :
      (r : Repository) (o : LeaseOwnershipRecord)
      → Memᴰ o r.lease_ownerships
      → o.lease_id ≡ lease_id
      → o.lease_epoch < next_epoch (latest_lease_ownership lease_id r)
  next_epoch-above r o m e = elim (Option-cases (latest_lease_ownership lease_id r)) [
    | inl h ↦ absurd (latest_none r o h m e)
    | inr (c, h) ↦ let (i, t, le) = latest_max r c o h m e in rw h (ground arith)
  ]

  -- A row with an epoch above those of the lease's other rows is the latest once it is written.
  pub latest-save :
      (r : Repository) (v : LeaseOwnershipRecord)
      → v.lease_id ≡ lease_id
      → ((o : LeaseOwnershipRecord)
          → Memᴰ o r.lease_ownerships
          → o.lease_id ≡ lease_id
          → (o.ownership_id == v.ownership_id) ≡ false
          → o.lease_epoch < v.lease_epoch)
      → latest_lease_ownership lease_id (save_lease_ownership v r) ≡ some v
  unfolding latest_lease_ownership save_lease_ownership
  latest-save r v e above =
      let rows' = insert_or_replace ownership_key v r.lease_ownerships in
      head-sort_by newer newer-asym newer_trans v (select is_of rows')
        (select-mem is_of rows' (insert_or_replace-mem ownership_key v r.lease_ownerships)
          ((eq_iff v.lease_id lease_id).1 e))
        (λ x i.
          let (m, t) = mem-select is_of rows' i in
          elim (mem-insert_or_replace ownership_key v r.lease_ownerships m) [
            | inl same ↦ inl same
            | inr (k, ne) ↦ inr (epoch-newer v x (above x k ((eq_iff x.lease_id lease_id).0 t) ne))
          ])

  -- Only the ownership rows matter.
  pub latest_rows :
      (r r' : Repository)
      → r.lease_ownerships ≡ r'.lease_ownerships
      → latest_lease_ownership lease_id r ≡ latest_lease_ownership lease_id r'
  unfolding latest_lease_ownership
  latest_rows r r' h = ap (λ rows. head? (sort_by newer (select is_of rows))) h
