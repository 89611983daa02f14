-- ===== src/Queue/Manager/Recovery.antt =====
-- `recover_stale_leases`: it gives back every stale lease, and counts them.
use contract_evidence_os.Prelude.{
  ℕ, ◌+◌, String, ◌≡◌, refl, sym, ◌∙◌, ap, Bool, true, false, ◌||◌, some, List, [], ◌∷◌, map, Memᴰ,
  ◌==◌, eq_iff, arith, leb, Bool-cases, inl, inr, select, length, All, All-map, select-mem,
  sort_by-mem, mem-tail, All-of_mem, All-mem, select_none, mem-map, mem-select, mem-sort_by, ◌⊎◌,
}
use contract_evidence_os.Base.Exec.{Datetime, Env, World, ok}
use contract_evidence_os.Queue.Models.{QueueLease}
use contract_evidence_os.Queue.Manager.{recover_each, recover_stale_leases}
use contract_evidence_os.Queue.Manager.Leases.{release_lease_lem}
use contract_evidence_os.Storage.Table.{order_by_asc, insert_or_replace}
use contract_evidence_os.Storage.Table.Laws.{find_row-mem, insert_or_replace-All_ne}
use contract_evidence_os.Storage.Repository.Laws.{key-get_queue_lease, get_queue_lease-write}
use contract_evidence_os.Storage.Repository.{
  Repository, get_queue_lease, list_queue_leases, lease_key,
}

clash : {b : Bool} → b ≡ false → b ≡ true → ⊥
clash f t = cc

no_clash : ¬ (◌≡◌ {A = String} "released" "active")
no_clash e = clash {b = "released" == "active"} refl ((eq_iff "released" "active").1 e)

abbrev pub is_stale : Datetime → Bool → QueueLease → Bool
is_stale now force_expire lease = force_expire || leb lease.expires_at now

module _ (env : Env) (now : Datetime) (force_expire : Bool) where
  -- The stale leases that the loop has still to give back.
  abbrev ids : List QueueLease → List String
  ids leases = map (λ l. l.lease_id) (select (is_stale now force_expire) leases)

  abbrev IsPending : List QueueLease → QueueLease → Type 0
  IsPending leases row =
      row.status ≡ "active" → is_stale now force_expire row ≡ true → Memᴰ row.lease_id (ids leases)

  abbrev IsFound : World Repository → QueueLease → Type 0
  IsFound w lease = (l : QueueLease) × (get_queue_lease lease.lease_id w.store ≡ some l)

  ids_stale :
      (lease : QueueLease) (rest : List QueueLease) {k : String}
      → is_stale now force_expire lease ≡ true
      → Memᴰ k (ids (lease ∷ rest))
      → (k ≡ lease.lease_id) ⊎ Memᴰ k (ids rest)
  unfolding select
  ids_stale lease rest t m = mem-tail (rw t at m)

  ids_fresh :
      (lease : QueueLease) (rest : List QueueLease) {k : String}
      → is_stale now force_expire lease ≡ false
      → Memᴰ k (ids (lease ∷ rest))
      → Memᴰ k (ids rest)
  unfolding select
  ids_fresh lease rest f m = rw f at m

  -- One lease is given back: the others are still found, and the stale ones still to come.
  module _ (lease l' : QueueLease) (rest : List QueueLease) (w w1 : World Repository)
      (written : w1.store.queue_leases ≡ insert_or_replace lease_key l' w.store.queue_leases)
      (same : l'.lease_id ≡ lease.lease_id) where
    IsFound-after : All (IsFound w) rest → All (IsFound w1) rest
    IsFound-after =
        All-map
          (λ x (y, e). elim (Bool-cases (l'.lease_id == x.lease_id)) [
            | inl t ↦ (l', get_queue_lease-write w.store w1.store x.lease_id l' written ∙ rw t refl)
            | inr f ↦ (y, get_queue_lease-write w.store w1.store x.lease_id l' written ∙ rw f e)
          ])
          rest

    IsPending-after :
        is_stale now force_expire lease ≡ true
        → l'.status ≡ "released"
        → All (IsPending (lease ∷ rest)) w.store.queue_leases
        → All (IsPending rest) w1.store.queue_leases
    IsPending-after t given pending = rw written (
        insert_or_replace-All_ne lease_key (IsPending (lease ∷ rest)) (IsPending rest) l'
          w.store.queue_leases pending (λ active _. absurd (no_clash (sym given ∙ active)))
          (λ x hx ne active stale. elim (ids_stale lease rest t (hx active stale)) [
            | inl e ↦ absurd (clash ne ((eq_iff x.lease_id l'.lease_id).1 (e ∙ sym same)))
            | inr m ↦ m
          ]))

  recover_each_lem :
      (leases : List QueueLease) (n : ℕ) (w : World Repository)
      → All (IsFound w) leases
      → All (IsPending leases) w.store.queue_leases
      → (w' : World Repository) × (recover_each env now force_expire leases n w
          ≡ (ok (n + length (select (is_stale now force_expire) leases)), w'))
        × All (IsPending []) w'.store.queue_leases
  unfolding recover_each select
  recover_each_lem [] n w found pending = (w, ap (λ k. (ok k, w)) (omega arith), pending)
  recover_each_lem (lease ∷ rest) n w (hl, found) pending =
      elim (Bool-cases (is_stale now force_expire lease)) [
        | inl t ↦
            let (l, e) = hl in
            let (l', w1, e1, rel, hw, _, _) =
              release_lease_lem env lease.lease_id "stale lease recovered" true l w e in
            let same = rel.same ∙ key-get_queue_lease lease.lease_id w.store l e in
            let (w2, e2, h2) =
              recover_each_lem rest (n + 1) w1 (IsFound-after lease l' rest w w1 hw same found)
                (IsPending-after lease l' rest w w1 hw same t rel.status pending) in
            rw t (rw e1 (w2, e2 ∙ ap (λ k. (ok k, w2)) (omega arith), h2))
        | inr f ↦ rw f (
            recover_each_lem rest n w found (
              All-map (λ x h active stale. ids_fresh lease rest f (h active stale))
                w.store.queue_leases pending))
      ]

  -- Every row that is active and stale stands in the list that the loop goes through.
  All-IsPending : (r : Repository) → All (IsPending (list_queue_leases "active" r)) r.queue_leases
  unfolding list_queue_leases order_by_asc
  All-IsPending r =
      All-of_mem (IsPending (list_queue_leases "active" r)) r.queue_leases (λ x m active stale.
        mem-map (λ l. l.lease_id)
          (select (is_stale now force_expire) (list_queue_leases "active" r))
          (select-mem (is_stale now force_expire) (list_queue_leases "active" r)
            (sort_by-mem _ _ (select-mem _ _ m ((eq_iff _ _).1 active))) stale))

  All-IsFound : (w : World Repository) → All (IsFound w) (list_queue_leases "active" w.store)
  unfolding list_queue_leases order_by_asc get_queue_lease
  All-IsFound w =
      All-of_mem (IsFound w) (list_queue_leases "active" w.store)
        (λ x m. find_row-mem lease_key w.store.queue_leases (mem-select _ _ (mem-sort_by _ _ m)).0)

  none_stale :
      (r : Repository)
      → All (IsPending []) r.queue_leases
      → select (is_stale now force_expire) (list_queue_leases "active" r) ≡ []
  unfolding list_queue_leases order_by_asc select
  none_stale r h = select_none (is_stale now force_expire) (list_queue_leases "active" r) (λ x m.
      let (stored, active) = mem-select _ _ (mem-sort_by _ _ m) in
      elim (Bool-cases (is_stale now force_expire x)) [
        | inl t ↦
            elim (All-mem (IsPending []) r.queue_leases h stored ((eq_iff _ _).0 active) t) [ ]
        | inr f ↦ f
      ])

  -- Recovery returns the number of active leases that had expired, or of all the active ones if
  -- they are forced to expire, and leaves no such lease active in the repository.
  pub recover_stale_leases-none_stale :
      (w : World Repository)
      → (w' : World Repository) × (recover_stale_leases env (some now) force_expire w ≡ (
        ok (length (select (is_stale now force_expire) (list_queue_leases "active" w.store))),
        w',
      ))
        × (select (is_stale now force_expire) (list_queue_leases "active" w'.store) ≡ [])
  unfolding recover_stale_leases
  recover_stale_leases-none_stale w =
      let (w', e, h) =
        recover_each_lem (list_queue_leases "active" w.store) 0 w (All-IsFound w)
          (All-IsPending w.store) in
      (w', e ∙ ap (λ k. (ok k, w')) (omega arith), none_stale w'.store h)
