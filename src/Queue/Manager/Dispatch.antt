-- ===== src/Queue/Manager/Dispatch.antt =====
-- What `dispatch_next` returns, and what it leaves in the repository.
use contract_evidence_os.Prelude.{
  ℕ, ◌+◌, String, ◌≡◌, refl, ◌∙◌, ap, subst, Bool, Option, none, some, List, [], ◌∷◌, ◌==◌, ==_refl,
  eq_iff, Bool-cases, inl, inr, Option-cases, first,
}
use contract_evidence_os.Base.Exec.{Datetime, seconds, Env, World, Result, ok}
use contract_evidence_os.Provider.Models.{ProviderHealthSnapshot}
use contract_evidence_os.Queue.Models.{
  QueueItem, AdmissionDecision, AdmissionPolicy, CapacitySnapshot,
}
use contract_evidence_os.Queue.Admission.Rules.{policy_in_force, verdict, evaluate_admission_lem}
use contract_evidence_os.Queue.Manager.{
  Dispatched, lease_item, dispatch_first, dispatch_order, dispatch_next,
}
use contract_evidence_os.Storage.Table.Laws.{find_row-insert_or_replace}
use contract_evidence_os.Storage.Repository.{
  Repository, save_queue_item, get_queue_item, save_queue_lease, get_queue_lease,
  save_admission_decision, save_dispatch_record, load_queue_policy, save_load_shedding_event,
  latest_admission_policy, item_key, lease_key,
}

-- The lease timeout of an item's queue, in seconds.
abbrev pub lease_timeout : Repository → QueueItem → ℕ
lease_timeout r item = elim (load_queue_policy item.queue_name r) [
  | none ↦ 60
  | some policy ↦ policy.lease_timeout_seconds
]

-- The dispatched item is stored as leased, under a stored active lease of the worker.
pub record HoldsLease (worker_id : String) (now : Datetime) (timeout : ℕ) (item : QueueItem)
    (d : Dispatched) (r : Repository) : Type 0 where
  pub stored_item : get_queue_item item.queue_item_id r ≡ some d.0
  pub stored_lease : get_queue_lease d.1.lease_id r ≡ some d.1
  pub same_item : d.0.queue_item_id ≡ item.queue_item_id
  pub item_status : d.0.status ≡ "leased"
  pub item_lease : d.0.lease_id ≡ d.1.lease_id
  pub item_attempts : d.0.attempt_count ≡ item.attempt_count
  pub lease_status : d.1.status ≡ "active"
  pub lease_target : d.1.queue_item_id ≡ item.queue_item_id
  pub lease_owner : d.1.worker_id ≡ worker_id
  pub lease_expiry : d.1.expires_at ≡ now + seconds timeout
  pub decision_status : d.2.status ≡ "admitted"
  pub dispatch_lease : d.3.lease_id ≡ d.1.lease_id

module _ (env : Env) (worker_id : String) (item : QueueItem) (now : Datetime) where
  lease_item_lem :
      (decision : AdmissionDecision) (w : World Repository)
      → decision.status ≡ "admitted"
      → (d : Dispatched) × (w' : World Repository) × (lease_item env worker_id item decision now w
          ≡ (ok d, w'))
        × HoldsLease worker_id now (lease_timeout w.store item) item d w'.store
  unfolding lease_item save_queue_item save_queue_lease save_dispatch_record get_queue_item
      get_queue_lease
  lease_item_lem decision w admitted =
      elim (Option-cases (load_queue_policy item.queue_name w.store)) [
        | inl e ↦ rw e (
          _,
          _,
          refl,
          record {
            stored_item = rw (find_row-insert_or_replace item_key, ==_refl) refl;
            stored_lease = rw (find_row-insert_or_replace lease_key, ==_refl) refl;
            same_item = refl;
            item_status = refl;
            item_lease = refl;
            item_attempts = refl;
            lease_status = refl;
            lease_target = refl;
            lease_owner = refl;
            lease_expiry = rw (e, lease_timeout) refl;
            decision_status = admitted;
            dispatch_lease = refl;
          },
        )
        | inr (p, e) ↦ rw e (
          _,
          _,
          refl,
          record {
            stored_item = rw (find_row-insert_or_replace item_key, ==_refl) refl;
            stored_lease = rw (find_row-insert_or_replace lease_key, ==_refl) refl;
            same_item = refl;
            item_status = refl;
            item_lease = refl;
            item_attempts = refl;
            lease_status = refl;
            lease_target = refl;
            lease_owner = refl;
            lease_expiry = rw (e, lease_timeout) refl;
            decision_status = admitted;
            dispatch_lease = refl;
          },
        )
      ]

module _ (env : Env) (worker_id : String) (snapshot : CapacitySnapshot)
    (health : ProviderHealthSnapshot) (mode : String) (now : Datetime) where
  abbrev pub admits : AdmissionPolicy → QueueItem → Bool
  admits policy item = verdict policy item snapshot health mode == "admitted"

  -- What the loop should return for the first admissible candidate, if there is one.
  abbrev pub Outcome :
      (QueueItem → ℕ) → Option QueueItem → Result (Option Dispatched) × World Repository → Type 0
  Outcome timeout none result = (w : World Repository) × (result ≡ (ok none, w))
  Outcome timeout (some item) result =
      (d : Dispatched) × (w : World Repository) × (result ≡ (ok (some d), w))
      × HoldsLease worker_id now (timeout item) item d w.store

  lease_timeout-eq :
      (r r' : Repository) (item : QueueItem)
      → r.queue_policies ≡ r'.queue_policies
      → lease_timeout r item ≡ lease_timeout r' item
  unfolding load_queue_policy
  lease_timeout-eq r r' item h = rw h refl

  policy_in_force-eq :
      (r r' : Repository)
      → r.admission_policies ≡ r'.admission_policies
      → policy_in_force r ≡ policy_in_force r'
  unfolding latest_admission_policy
  policy_in_force-eq r r' h = rw h refl

  dispatch_first_lem :
      (r : Repository) (items : List QueueItem) (w : World Repository)
      → w.store.admission_policies ≡ r.admission_policies
      → w.store.queue_policies ≡ r.queue_policies
      → Outcome
          (lease_timeout r)
          (first (admits (policy_in_force r)) items)
          (dispatch_first env worker_id snapshot health mode now items w)
  unfolding dispatch_first first save_admission_decision save_queue_item save_load_shedding_event
  dispatch_first_lem r [] w h q = (w, refl)
  dispatch_first_lem r (item ∷ rest) w h q =
      let (d, w1, e1, s1, v1) = evaluate_admission_lem env item snapshot health mode w in
      let a : admits (policy_in_force r) item ≡ (d.status == "admitted") =
        rw (v1, policy_in_force-eq w.store r h) refl in
      let w2 : World Repository = record w1 { store = save_admission_decision d w1.store } in
      elim (Bool-cases (d.status == "admitted")) [
        | inl t ↦
            let (g, w3, e3, held) =
              lease_item_lem env worker_id item now d w2 ((eq_iff d.status "admitted").0 t) in
            rw (a, e1, t)
              (
                g,
                w3,
                rw e3 refl,
                subst (λ n. HoldsLease worker_id now n item g w3.store)
                    (lease_timeout-eq w2.store r item (ap (λ s. s.queue_policies) s1 ∙ q)) held,
              )
        | inr f ↦
            rw (a, e1, f)
              (dispatch_first_lem r rest _ (ap (λ s. s.admission_policies) s1 ∙ h)
                (ap (λ s. s.queue_policies) s1 ∙ q))
      ]

  -- `dispatch_next` leases the first candidate, in priority order, that the admission rules admit,
  -- and returns nothing exactly when they admit none of the candidates.
  pub dispatch_next-first :
      (w : World Repository)
      → Outcome
          (lease_timeout w.store)
          (first (admits (policy_in_force w.store)) (dispatch_order now w.store))
          (dispatch_next env worker_id snapshot health mode (some now) w)
  unfolding dispatch_next
  dispatch_next-first w = dispatch_first_lem w.store (dispatch_order now w.store) w refl refl
