-- ===== src/Coordination/Backend/Refinement/Steps.antt =====
-- Each lease operation does what the abstract machine does.
use contract_evidence_os.Prelude.{
  ◌||◌, String, ◌+◌, arith, ◌≡◌, ◌≢◌, none, true, refl, sym, ◌∙◌, ap, subst, false, ◌&&◌, Option,
  some, ◌==◌, eq_iff, ne_of_==, Bool-cases, Option-cases, inl, inr, Memᴰ,
}
use contract_evidence_os.Base.Exec.{
  Datetime, Env, World, Result, ok, err, fresh_id, seconds, bind_keeps,
}
use contract_evidence_os.Coordination.Models.{
  LeaseOwnershipRecord, LeaseRenewalPolicy, WorkStealPolicy, WorkerLifecycleRecord,
}
use contract_evidence_os.Coordination.Backend.{
  Gauges, owns, claim_lease, renew_lease, release_lease,
}
use contract_evidence_os.Coordination.Backend.Latest.{latest_mem}
use contract_evidence_os.Coordination.Backend.Ownership.{not_active, WellOwned, rewrite-WellOwned}
use contract_evidence_os.Coordination.Backend.Fencing.{superseded, fence_found, claim_lease_lem}
use contract_evidence_os.Coordination.Backend.Reach.{
  fenced-WellOwned, claim_lease-WellOwned, record_steal_keeps,
}
use contract_evidence_os.Coordination.Backend.Steal.{
  steal_lease, may_steal, safety_checks, record_steal, steal_current, save_contention,
}
use contract_evidence_os.Coordination.Backend.Holder.{
  holder, holder-active, holder_frame, is_holder,
}
use contract_evidence_os.Storage.Table.Laws.{mem-insert_or_replace, insert_or_replace-mem}
use contract_evidence_os.Storage.Repository.{
  Repository, latest_lease_ownership, save_lease_ownership, ownership_key, load_worker, save_worker,
  save_ownership_conflict_event, save_renewal_attempt, save_lease_expiry_forecast,
  save_lease_contention_record,
}
use contract_evidence_os.Coordination.Backend.Refinement.{
  Holders, AgreeBut, Operation, claim, renew, release, steal, Spec, holders, holder_rows, same_rows,
  holder-none, holder_latest, is_holder-owns, rewrite_frame, rewrite_renews, rewrite_drops,
}

-- The identifier that the next claim draws is not that of a row.
abbrev pub IsFresh : Env → World Repository → Type 0
IsFresh env w =
    (o : LeaseOwnershipRecord)
    → Memᴰ o w.store.lease_ownerships
    → (o.ownership_id == fresh_id env "lease-owner-" w.draws) ≡ false

module _ (lease_id : String) (now : Datetime) (r : Repository)
    (h : WellOwned r.lease_ownerships) where
  abbrev fenced : Repository
  fenced = fence_found now (latest_lease_ownership lease_id r) r

  fence_frame : AgreeBut lease_id (holders r) (holders fenced)
  unfolding fence_found
  fence_frame other ne = elim (Option-cases (latest_lease_ownership lease_id r)) [
    | inl e ↦ rw e refl
    | inr (c, e) ↦ elim (Bool-cases (c.status == "active")) [
      | inr f ↦ rw (e, f) refl
      | inl t ↦
          rw (e, t)
            (rewrite_frame lease_id r c (superseded now c) h
              (rewrite-WellOwned r c (superseded now c) h (latest_mem lease_id r c e).0 refl refl
                refl (λ a. absurd (not_active "fenced" refl a)))
              e refl refl other ne)
    ]
  ]

  fence_ids :
      (id : String)
      → ((o : LeaseOwnershipRecord) → Memᴰ o r.lease_ownerships → (o.ownership_id == id) ≡ false)
      → (o : LeaseOwnershipRecord) → Memᴰ o fenced.lease_ownerships
      → (o.ownership_id == id) ≡ false
  unfolding fence_found save_lease_ownership
  fence_ids id apart o m = elim (Option-cases (latest_lease_ownership lease_id r)) [
    | inl e ↦ apart o (rw (e, fence_found) at m)
    | inr (c, e) ↦ elim (Bool-cases (c.status == "active")) [
      | inr f ↦ apart o (rw (e, fence_found, f) at m)
      | inl t ↦
          elim (mem-insert_or_replace ownership_key (superseded now c) r.lease_ownerships
            (rw (e, fence_found, t, save_lease_ownership) at m)) [
              | inl same ↦
                  subst (λ z. (z == id) ≡ false) (sym (ap (λ z. z.ownership_id) same))
                    (apart c (latest_mem lease_id r c e).0)
              | inr (i, ne) ↦ apart o i
            ]
    ]
  ]

-- The token in what a call returns.
abbrev pub token_of : Result LeaseOwnershipRecord → Option String
token_of (ok owner) = some owner.fencing_token
token_of (err _) = none

abbrev pub token_found : Result (Option LeaseOwnershipRecord) → Option String
token_found (ok (some owner)) = some owner.fencing_token
token_found (ok none) = none
token_found (err _) = none

-- A call of the operation at an instant: the token in its reply, and the world that it leaves. A
-- steal replies with a decision, in which there is no token.
unfoldable pub perform :
    Env → Gauges → Operation → Datetime → World Repository → Option String × World Repository
perform env gauges (claim lease_id queue_item_id task_id worker_id expires_at host_id) now w =
    let (result, w') =
      claim_lease env gauges lease_id queue_item_id task_id worker_id expires_at (some now) host_id
        w in
    (token_of result, w')
perform env gauges (renew lease_id worker_id token expires_at policy host_id) now w =
    let (result, w') =
      renew_lease env gauges lease_id worker_id token expires_at (some now) policy host_id w in
    (token_found result, w')
perform env gauges (release lease_id worker_id token reason) now w =
    let (result, w') = release_lease env gauges lease_id worker_id token reason (some now) w in
    (token_found result, w')
perform env gauges (steal lease_id queue_item_id task_id new_worker_id policy) now w =
    (none, (steal_lease env gauges lease_id queue_item_id task_id new_worker_id now policy w).1)

owned_token :
    (worker_id token : String) (c : LeaseOwnershipRecord)
    → owns worker_id token c ≡ true
    → c.fencing_token ≡ token
unfolding owns
owned_token worker_id token c t = (eq_iff c.fencing_token token).0 (ground arith)

-- A steal happens only under a policy that allows one.
may_steal-allowed :
    (now : Datetime) (policy : WorkStealPolicy) (c : LeaseOwnershipRecord)
    (owner : Option WorkerLifecycleRecord)
    → may_steal now policy c owner ≡ true
    → (policy.allow_steal_from_draining || policy.allow_steal_from_stale) ≡ true
unfolding may_steal
may_steal-allowed now policy c none m = absurd (cc)
may_steal-allowed now policy c (some owner) m = ground arith

-- Only the ownership rows matter for a steal.
via_rows :
    {before : Holders} (lease_id queue_item_id task_id new_worker_id : String)
    (policy : WorkStealPolicy) (r r' : Repository)
    → r'.lease_ownerships ≡ r.lease_ownerships
    → Spec (steal lease_id queue_item_id task_id new_worker_id policy) before none (holders r)
    → Spec (steal lease_id queue_item_id task_id new_worker_id policy) before none (holders r')
via_rows lease_id q t k policy r r' e (inl same) = inl (λ m. same_rows r r' e m ∙ same m)
via_rows lease_id q t k policy r r' e (inr (allowed, former, token, b, a, others)) = inr (
  allowed,
  former,
  token,
  b,
  same_rows r r' e lease_id ∙ a,
  λ m ne. same_rows r r' e m ∙ others m ne,
)

module _ (env : Env) (gauges : Gauges) (w : World Repository)
    (h : WellOwned w.store.lease_ownerships) where
  claim_grants :
      (lease_id queue_item_id task_id worker_id : String) (expires_at : Datetime) (host_id : String)
      (now : Datetime)
      → IsFresh env w
      → let claimed =
          claim_lease env gauges lease_id queue_item_id task_id worker_id expires_at
            (some now)
            host_id
            w in
        Spec
          (claim lease_id queue_item_id task_id worker_id expires_at host_id)
          (holders w.store)
          (token_of claimed.0)
          (holders claimed.1.store)
  unfolding save_lease_ownership
  claim_grants lease_id queue_item_id task_id worker_id expires_at host_id now fresh =
      let grant =
        claim_lease_lem env gauges lease_id queue_item_id task_id worker_id expires_at host_id w
          now in
      let o = grant.owner in
      let r = fenced lease_id now w.store h in
      let rows = grant.rows in
      let kept =
        claim_lease-WellOwned env gauges lease_id w h queue_item_id task_id worker_id expires_at
          host_id now in
      let kept' = subst WellOwned rows kept in
      let stored = insert_or_replace-mem ownership_key o r.lease_ownerships in
      (
        o.fencing_token,
        ap token_of grant.returned,
        holder_rows _ (save_lease_ownership o r) lease_id rows
            ∙ holder-active lease_id (save_lease_ownership o r) kept' o stored grant.of_lease
                grant.active
            ∙ ap (λ z. some (z, o.fencing_token)) grant.to_worker,
        (λ other ne.
            holder_rows _ (save_lease_ownership o r) other rows
            ∙ holder_frame r o other (fenced-WellOwned lease_id now w.store h) kept'
                (λ e. ne_of_== lease_id other ne (sym grant.of_lease ∙ e))
                (λ p m l.
                  subst (λ z. (p.ownership_id == z) ≡ false) (sym grant.with_id)
                    (fence_ids lease_id now w.store h (fresh_id env "lease-owner-" w.draws) fresh p
                      m))
            ∙ fence_frame lease_id now w.store h other ne),
      )

  renew_keeps :
      (lease_id worker_id token : String) (expires_at now : Datetime)
      (policy : Option LeaseRenewalPolicy) (host_id : String)
      → let renewal =
          renew_lease env gauges lease_id worker_id token expires_at (some now) policy host_id w in
        Spec
          (renew lease_id worker_id token expires_at policy host_id)
          (holders w.store)
          (token_found renewal.0)
          (holders renewal.1.store)
  unfolding renew_lease save_ownership_conflict_event save_renewal_attempt
      save_lease_expiry_forecast
  renew_keeps lease_id worker_id token expires_at now policy host_id =
      elim (Option-cases (latest_lease_ownership lease_id w.store)) [
        | inl e ↦ rw (e, holder-none lease_id w.store e) (refl, same_rows w.store w.store refl)
        | inr (c, e) ↦ elim (Bool-cases (owns worker_id token c && c.status == "active")) [
          | inr f ↦
              rw (e, f, is_holder-owns lease_id worker_id token w.store c e, f)
                (refl, same_rows w.store _ refl)
          | inl t ↦
              let active = (eq_iff c.status "active").0 (ground arith) in
              let renewed = record c { renewed_at = some now; expires_at = expires_at } in
              rw (e, t, is_holder-owns lease_id worker_id token w.store c e, t)
                (
                  ap some (owned_token worker_id token c (ground arith)),
                  λ other.
                      same_rows (save_lease_ownership renewed w.store) _ refl other
                      ∙ rewrite_renews lease_id w.store c renewed h
                          (rewrite-WellOwned w.store c renewed h (latest_mem lease_id w.store c e).0
                            refl refl refl (λ a. a))
                          e refl refl active active refl refl other,
                )
        ]
      ]

  release_refused :
      (lease_id worker_id token reason : String) (reply : Option String) (r' : Repository)
      → r'.lease_ownerships ≡ w.store.lease_ownerships
      → is_holder (holder lease_id w.store) worker_id token ≡ false
      → Spec (release lease_id worker_id token reason) (holders w.store) reply (holders r')
  release_refused lease_id worker_id token reason reply r' e f =
      (rw f (same_rows w.store r' e lease_id), (λ other _. same_rows w.store r' e other), inl f)

  release_accepted :
      (lease_id worker_id token reason : String) (c released : LeaseOwnershipRecord)
      (r' : Repository)
      → latest_lease_ownership lease_id w.store ≡ some c
      → owns worker_id token c ≡ true
      → released.ownership_id ≡ c.ownership_id
      → released.lease_id ≡ c.lease_id
      → released.fencing_token ≡ c.fencing_token
      → released.lease_epoch ≡ c.lease_epoch
      → released.status ≢ "active"
      → r'.lease_ownerships ≡ (save_lease_ownership released w.store).lease_ownerships
      → Spec
          (release lease_id worker_id token reason)
          (holders w.store)
          (some released.fencing_token)
          (holders r')
  release_accepted lease_id worker_id token reason c released r' e t key lease same epoch off rows =
      let kept =
        rewrite-WellOwned w.store c released h (latest_mem lease_id w.store c e).0 key lease epoch
          (λ a. absurd (off a)) in
      let dropped =
        same_rows (save_lease_ownership released w.store) r' rows lease_id
        ∙ rewrite_drops lease_id w.store c released h kept e key lease off in
      (
        dropped ∙ elim (Bool-cases (c.status == "active")) [
          | inl a ↦ rw (is_holder-owns lease_id worker_id token w.store c e, t, a) refl
          | inr a ↦
              rw (is_holder-owns lease_id worker_id token w.store c e, t, a)
                (sym (holder_latest lease_id w.store c e ∙ rw a refl))
        ],
        (λ other ne.
            same_rows (save_lease_ownership released w.store) r' rows other
            ∙ rewrite_frame lease_id w.store c released h kept e key lease other ne),
        inr (ap some (same ∙ owned_token worker_id token c t)),
      )

  release_drops :
      (lease_id worker_id token reason : String) (now : Datetime)
      → let ending = release_lease env gauges lease_id worker_id token reason (some now) w in
        Spec
          (release lease_id worker_id token reason)
          (holders w.store)
          (token_found ending.0)
          (holders ending.1.store)
  unfolding release_lease save_ownership_conflict_event save_worker
  release_drops lease_id worker_id token reason now =
      elim (Option-cases (latest_lease_ownership lease_id w.store)) [
        | inl e ↦ rw e (
            release_refused lease_id worker_id token reason none w.store refl
              (rw (holder-none lease_id w.store e) refl))
        | inr (c, e) ↦ elim (Bool-cases (owns worker_id token c)) [
          | inr f ↦
              rw (e, f)
                (release_refused lease_id worker_id token reason none _ refl
                  (is_holder-owns lease_id worker_id token w.store c e ∙ rw f refl))
          | inl t ↦
              let released = record c {
                status = "released";
                released_at = some now;
                reclaim_reason = reason;
              } in
              let off = not_active "released" refl in
              elim (Option-cases (load_worker worker_id (save_lease_ownership released w.store))) [
                | inl l ↦
                    rw (e, t, l)
                      (release_accepted lease_id worker_id token reason c released _ e t refl refl
                        refl refl off refl)
                | inr (worker, l) ↦
                    rw (e, t, l)
                      (release_accepted lease_id worker_id token reason c released _ e t refl refl
                        refl refl off refl)
              ]
        ]
      ]

  steal_grants :
      (lease_id queue_item_id task_id new_worker_id : String) (now : Datetime)
      (policy : WorkStealPolicy)
      → IsFresh env w
      → Spec (steal lease_id queue_item_id task_id new_worker_id policy) (holders w.store) none (
          holders
            (steal_lease env gauges lease_id queue_item_id task_id new_worker_id now policy
              w).1.store)
  unfolding steal_lease steal_current save_contention save_lease_contention_record
  steal_grants lease_id queue_item_id task_id new_worker_id now policy fresh =
      elim (Option-cases (latest_lease_ownership lease_id w.store)) [
        | inl e ↦ rw e (inl (same_rows w.store w.store refl))
        | inr (c, e) ↦ elim (Bool-cases (c.status == "active")) [
          | inr a ↦ rw (e, a) (inl (same_rows w.store _ refl))
          | inl a ↦
              let owner = load_worker c.worker_id w.store in
              let held = holder_latest lease_id w.store c e ∙ rw a refl in
              elim (Bool-cases (may_steal now policy c owner)) [
                | inr m ↦ rw (e, a, m) (inl (same_rows w.store _ refl))
                | inl m ↦
                    let (token, _, taken, others) =
                      claim_grants lease_id queue_item_id task_id new_worker_id (now + seconds 30)
                        "" now fresh in
                    rw (e, a, m)
                      (bind_keeps
                        (λ r.
                          Spec (steal lease_id queue_item_id task_id new_worker_id policy)
                            (holders w.store) none (holders r))
                        (claim_lease env gauges lease_id queue_item_id task_id new_worker_id
                          (now + seconds 30) (some now) "")
                        (record_steal env gauges lease_id new_worker_id now
                          (safety_checks now policy c owner) c)
                        w
                        (inr (
                          may_steal-allowed now policy c owner m,
                          (c.worker_id, c.fencing_token),
                          token,
                          held,
                          taken,
                          others,
                        ))
                        (λ replacement w' s.
                          via_rows lease_id queue_item_id task_id new_worker_id policy w'.store _
                            (record_steal_keeps env gauges lease_id new_worker_id now
                              (safety_checks now policy c owner) c replacement w')
                            s))
              ]
        ]
      ]

-- Seen through the holders, each lease operation on well owned rows does what the abstract machine
-- does, if the identifier that the next claim draws is not that of a row. A claim makes the worker
-- the holder under the token that it returns. A renewal changes no holder; it returns a token
-- exactly for the holder. A release by the holder frees the lease and returns the token, and a
-- release by anybody else changes no holder. Under a policy that allows steals, a steal passes a
-- held lease to the new worker or changes no holder, and under another it changes no holder. No
-- operation changes the holder of another lease.
pub lease_refinement :
    (env : Env) (gauges : Gauges) (operation : Operation) (now : Datetime) (w : World Repository)
    → WellOwned w.store.lease_ownerships
    → IsFresh env w
    → Spec operation
        (holders w.store)
        (perform env gauges operation now w).0
        (holders (perform env gauges operation now w).1.store)
unfolding perform
lease_refinement env gauges (claim l q t k x host) now w h fresh =
    claim_grants env gauges w h l q t k x host now fresh
lease_refinement env gauges (renew l k f x policy host) now w h fresh =
    renew_keeps env gauges w h l k f x now policy host
lease_refinement env gauges (release l k f reason) now w h fresh =
    release_drops env gauges w h l k f reason now
lease_refinement env gauges (steal l q t k policy) now w h fresh =
    steal_grants env gauges w h l q t k now policy fresh
