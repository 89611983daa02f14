-- ===== src/Queue/Manager/Order.antt =====
-- Which items `dispatch_next` considers, and which of them it leases.
use contract_evidence_os.Prelude.{
  ◌≤◌, String, ◌≡◌, refl, sym, ◌∙◌, ap, subst, ◌⊎◌, Bool, true, false, not, ◌&&◌, Option, none,
  some, [], ◌∷◌, Memᴰ, ◌==◌, eq_iff, arith, leb, first, select, contains, first-some, first-none,
  first_least, mem-select, select-mem, mem-sort_by, sort_by-mem, sort_by-IsOrdered, IsOrdered,
}
use contract_evidence_os.Prelude.Int.{ltb_ℤ, ◌≤ℤ◌}
use contract_evidence_os.Base.Exec.{Datetime, Env, World, Result, ok}
use contract_evidence_os.Provider.Models.{ProviderHealthSnapshot}
use contract_evidence_os.Queue.Models.{QueueItem, CapacitySnapshot}
use contract_evidence_os.Queue.Admission.{priority_score}
use contract_evidence_os.Queue.Admission.Rules.{policy_in_force, MayAdmit, admitted_iff}
use contract_evidence_os.Queue.Manager.{Dispatched, dispatch_order, dispatch_next}
use contract_evidence_os.Queue.Manager.Dispatch.{
  lease_timeout, HoldsLease, admits, Outcome, dispatch_next-first,
}
use contract_evidence_os.Storage.Table.{order_by_asc}
use contract_evidence_os.Storage.Repository.{Repository, list_queue_items}

-- A waiting item whose time has come.
pub record IsEligible (now : Datetime) (item : QueueItem) : Type 0 where
  pub waiting : (item.status ≡ "queued") ⊎ (item.status ≡ "deferred")
  pub available : item.available_at ≤ now

module _ (now : Datetime) (r : Repository) where
  before : QueueItem → QueueItem → Bool
  before a b = ltb_ℤ (priority_score r b) (priority_score r a)

  before_asym : (a b : QueueItem) → before a b ≡ true → before b a ≡ false
  unfolding before
  before_asym a b h = ground arith

  before_irrefl : (a : QueueItem) → before a a ≡ false
  unfolding before
  before_irrefl a = ground arith

  before_trans : (a b c : QueueItem) → before b a ≡ false → before c b ≡ false → before c a ≡ false
  unfolding before
  before_trans a b c h k = ground arith

  le_of_before : (a b : QueueItem) → before a b ≡ false → priority_score r a ≤ℤ priority_score r b
  unfolding before
  le_of_before a b h = ground arith

  dispatch_order-IsOrdered : IsOrdered before (dispatch_order now r)
  unfolding dispatch_order before
  dispatch_order-IsOrdered = sort_by-IsOrdered before before_asym before_trans (
      select (λ item. not (item.status == "leased") && leb item.available_at now)
        (list_queue_items ("queued" ∷ "deferred" ∷ "leased" ∷ []) r))

  pub mem-dispatch_order :
      {item : QueueItem}
      → Memᴰ item (dispatch_order now r)
      → Memᴰ item r.queue_items × IsEligible now item
  unfolding dispatch_order list_queue_items order_by_asc contains
  mem-dispatch_order {item} m =
      let (m1, t1) = mem-select _ _ (mem-sort_by _ _ m) in
      let (m2, t2) = mem-select _ _ (mem-sort_by _ _ m1) in
      (
        m2,
        record {
          waiting = ground (
            arith,
            eq_iff item.status "queued",
            eq_iff item.status "deferred",
            eq_iff item.status "leased",
            eq_iff "queued" item.status,
            eq_iff "deferred" item.status,
            eq_iff "leased" item.status,
          );
          available = ground arith;
        },
      )

  pub dispatch_order-mem :
      {item : QueueItem}
      → Memᴰ item r.queue_items
      → IsEligible now item
      → Memᴰ item (dispatch_order now r)
  unfolding dispatch_order list_queue_items order_by_asc contains
  dispatch_order-mem {item} m h = sort_by-mem _ _ (
      select-mem _ _
        (sort_by-mem _ _ (
          select-mem _ _ m
            (ground (arith, eq_iff "queued" item.status, eq_iff "deferred" item.status))))
        (ground (
          arith,
          eq_iff item.status "leased",
          eq_iff "queued" "leased",
          eq_iff "deferred" "leased",
        )))

module _ (env : Env) (worker_id : String) (snapshot : CapacitySnapshot)
    (health : ProviderHealthSnapshot) (mode : String) (now : Datetime) (w : World Repository) where
  -- An item of the repository that may be dispatched now.
  pub record IsCandidate (item : QueueItem) : Type 0 where
    pub stored : Memᴰ item w.store.queue_items
    pub eligible : IsEligible now item
    pub admissible : MayAdmit (policy_in_force w.store) item snapshot health mode

  candidates : QueueItem → Bool
  candidates = admits env worker_id snapshot health mode now (policy_in_force w.store)

  IsCandidate-first :
      (item : QueueItem)
      → Memᴰ item (dispatch_order now w.store)
      → candidates item ≡ true
      → IsCandidate item
  unfolding candidates
  IsCandidate-first item m t =
      let (stored, eligible) = mem-dispatch_order now w.store m in
      record {
        stored = stored;
        eligible = eligible;
        admissible =
            (admitted_iff (policy_in_force w.store) item snapshot health mode).0 ((eq_iff _ _).0 t);
      }

  first-IsCandidate :
      (item : QueueItem)
      → IsCandidate item
      → Memᴰ item (dispatch_order now w.store) × (candidates item ≡ true)
  unfolding candidates
  first-IsCandidate item c = (
    dispatch_order-mem now w.store c.stored c.eligible,
    (eq_iff _ _).1
        ((admitted_iff (policy_in_force w.store) item snapshot health mode).1 c.admissible),
  )

  abbrev Explained : Option Dispatched → World Repository → Type 0
  Explained none w' = (item : QueueItem) → ¬ IsCandidate item
  Explained (some d) w' =
      (item : QueueItem) × IsCandidate item
      × HoldsLease worker_id now (lease_timeout w.store item) item d w'.store
      × ((other : QueueItem)
          → IsCandidate other
          → priority_score w.store other ≤ℤ priority_score w.store item)

  explain :
      (chosen : Option QueueItem) (result : Result (Option Dispatched) × World Repository)
      → first candidates (dispatch_order now w.store) ≡ chosen
      → Outcome env worker_id snapshot health mode now (lease_timeout w.store) chosen result
      → (o : Option Dispatched) × (w' : World Repository) × (result ≡ (ok o, w')) × Explained o w'
  explain none result e (w', returned) = (
    none,
    w',
    returned,
    λ item c.
        let (m, t) = first-IsCandidate item c in
        let f : candidates item ≡ false = first-none candidates (dispatch_order now w.store) e m in
        cc,
  )
  explain (some item) result e (d, w', returned, held) =
      let (m, t) = first-some candidates (dispatch_order now w.store) item e in
      (
        some d,
        w',
        returned,
        (
          item,
          IsCandidate-first item m t,
          held,
          λ other c.
              let (m', t') = first-IsCandidate other c in
              le_of_before now w.store other item (
                first_least (before now w.store) (before_irrefl now w.store) candidates
                  (dispatch_order now w.store) item (dispatch_order-IsOrdered now w.store) e m' t'),
        ),
      )

  dispatch_next_lem :
      (o : Option Dispatched) × (w' : World Repository) × (dispatch_next env worker_id snapshot
          health mode
          (some now)
          w
        ≡ (ok o, w'))
      × Explained o w'
  unfolding candidates
  dispatch_next_lem =
      explain _ _ refl (dispatch_next-first env worker_id snapshot health mode now w)

  Explained-some :
      (o : Option Dispatched) (w1 : World Repository)
      → Explained o w1
      → {d : Dispatched} {w' : World Repository}
      → ◌≡◌ {A = Result (Option Dispatched) × World Repository} (ok o, w1) (ok (some d), w')
      → Explained (some d) w'
  Explained-some none w1 h e = absurd (cc)
  Explained-some (some d1) w1 h {d} {w'} e =
      let same : d1 ≡ d = ground arith in
      let same_world : w1 ≡ w' = ap (λ r. r.1) e in
      subst (λ x. Explained (some x) w') same (subst (λ x. Explained (some d1) x) same_world h)

  -- What a dispatch returns is a lease for the worker on an item of the repository that was waiting,
  -- available and admissible. The item and its lease are stored as they are returned.
  pub dispatch_next-HoldsLease :
      {d : Dispatched} {w' : World Repository}
      → dispatch_next env worker_id snapshot health mode (some now) w ≡ (ok (some d), w')
      → (item : QueueItem) × IsCandidate item
        × HoldsLease worker_id now (lease_timeout w.store item) item d w'.store
  dispatch_next-HoldsLease e =
      let (o, w1, e1, h) = dispatch_next_lem in
      let (item, c, held, _) = Explained-some o w1 h (sym e1 ∙ e) in (item, c, held)

  -- No item that could have been dispatched has a higher priority score than the one that was.
  pub dispatch_next-best :
      {d : Dispatched} {w' : World Repository}
      → dispatch_next env worker_id snapshot health mode (some now) w ≡ (ok (some d), w')
      → (other : QueueItem) → IsCandidate other
      → (item : QueueItem) × IsCandidate item
        × (d.0.queue_item_id ≡ item.queue_item_id)
        × (priority_score w.store other ≤ℤ priority_score w.store item)
  dispatch_next-best e other co =
      let (o, w1, e1, h) = dispatch_next_lem in
      let (item, c, held, best) = Explained-some o w1 h (sym e1 ∙ e) in
      (item, c, held.same_item, best other co)

  -- If some stored item may be dispatched now, then one is: the call does not raise, and does not
  -- return `None`.
  pub dispatch_next_progress :
      (item : QueueItem)
      → IsCandidate item
      → (d : Dispatched) × (w' : World Repository) × (dispatch_next env worker_id snapshot health
            mode
            (some now)
            w
          ≡ (ok (some d), w'))
  dispatch_next_progress item c = let (o, w1, e1, h) = dispatch_next_lem in go o e1 h
    where
      go :
          (o : Option Dispatched) {w1 : World Repository}
          → dispatch_next env worker_id snapshot health mode (some now) w ≡ (ok o, w1)
          → Explained o w1
          → (d : Dispatched) × (w' : World Repository) × (dispatch_next env worker_id snapshot
                health mode
                (some now)
                w
              ≡ (ok (some d), w'))
      go none e h = absurd (h item c)
      go (some d) {w1} e h = (d, w1, e)
