-- ===== src/Coordination/Backend/Fencing.antt =====
-- Fencing: who owns a lease after each operation, and that a former owner changes nothing.
use Prim.Native.String.{◌++◌}
use contract_evidence_os.Prelude.{
  ℕ, ◌+◌, ◌<◌, String, ◌≡◌, ◌≢◌, ==_ne, ◌⊎◌, refl, sym, ap, subst, ◌∙◌, false, ◌&&◌, Option, none,
  some, ◌==◌, eq_iff, arith, if◌then◌else◌, Bool-cases, Option-cases, inl, inr, Memᴰ,
}
use contract_evidence_os.Base.Exec.{Datetime, Env, World, Result, ok, err, fresh_id}
use contract_evidence_os.Coordination.Models.{LeaseOwnershipRecord, LeaseRenewalPolicy}
use contract_evidence_os.Coordination.Backend.{
  Gauges, next_epoch, grant_lease, host_for, owns, validate_fencing, claim_lease, renew_lease,
  release_lease,
}
use contract_evidence_os.Coordination.Backend.Latest.{next_epoch-above, latest-save, latest_rows}
use contract_evidence_os.Storage.Table.Laws.{mem-insert_or_replace}
use contract_evidence_os.Storage.Repository.{
  Repository, latest_lease_ownership, save_lease_ownership, load_worker, save_worker, ownership_key,
  save_ownership_conflict_event,
}

-- An active latest owner of the lease is fenced before a claim.
abbrev pub superseded : Datetime → LeaseOwnershipRecord → LeaseOwnershipRecord
superseded now current = record current {
  status = "fenced";
  released_at = some now;
  reclaim_reason = "superseded_by_new_owner";
}

unfoldable pub fence_found : Datetime → Option LeaseOwnershipRecord → Repository → Repository
fence_found now none r = r
fence_found now (some current) r =
    if current.status == "active" then save_lease_ownership (superseded now current) r else r

-- What the grant of a lease at an epoch returns, and what it leaves of the ownership rows.
pub record IsGrant (ownership_id lease_id worker_id : String) (epoch : ℕ) (r : Repository)
    (result : Result LeaseOwnershipRecord × World Repository) : Type 0 where
  pub owner : LeaseOwnershipRecord
  pub returned : result.0 ≡ ok owner
  pub with_id : owner.ownership_id ≡ ownership_id
  pub rows : result.1.store.lease_ownerships ≡ (save_lease_ownership owner r).lease_ownerships
  pub of_lease : owner.lease_id ≡ lease_id
  pub to_worker : owner.worker_id ≡ worker_id
  pub active : owner.status ≡ "active"
  pub at_epoch : owner.lease_epoch ≡ epoch

module _ (env : Env) (gauges : Gauges) (lease_id queue_item_id task_id worker_id : String)
    (expires_at : Datetime) (host_id : String) where
  grant_lem :
      (w : World Repository) (now : Datetime) (epoch : ℕ)
      → IsGrant (fresh_id env "lease-owner-" w.draws) lease_id worker_id epoch w.store (
          grant_lease env gauges lease_id queue_item_id task_id worker_id expires_at host_id now
            epoch w)
  unfolding grant_lease save_worker save_lease_ownership
  grant_lem w now epoch =
      let owner : LeaseOwnershipRecord = record {
        version = "1.0";
        ownership_id = fresh_id env "lease-owner-" w.draws;
        lease_id = lease_id;
        queue_item_id = queue_item_id;
        task_id = task_id;
        worker_id = worker_id;
        lease_epoch = epoch;
        fencing_token = "fence-" ++ env.uuid4_hex (w.draws + 1);
        status = "active";
        acquired_at = now;
        expires_at = expires_at;
        host_id = host_for host_id (load_worker worker_id w.store);
        renewed_at = none;
        released_at = none;
        reclaim_reason = "";
      } in
      elim (Option-cases (load_worker worker_id (save_lease_ownership owner w.store))) [
        | inl e ↦ rw e (record {
          owner = owner;
          returned = refl;
          with_id = refl;
          rows = refl;
          of_lease = refl;
          to_worker = refl;
          active = refl;
          at_epoch = refl;
        })
        | inr (worker, e) ↦ rw e (record {
          owner = owner;
          returned = refl;
          with_id = refl;
          rows = refl;
          of_lease = refl;
          to_worker = refl;
          active = refl;
          at_epoch = refl;
        })
      ]

  -- A claim fences the active latest owner and grants the lease at the next epoch.
  pub claim_lease_lem :
      (w : World Repository) (now : Datetime)
      → IsGrant
          (fresh_id env "lease-owner-" w.draws)
          lease_id
          worker_id
          (next_epoch (latest_lease_ownership lease_id w.store))
          (fence_found now (latest_lease_ownership lease_id w.store) w.store)
          (claim_lease env gauges lease_id queue_item_id task_id worker_id expires_at
            (some now)
            host_id
            w)
  unfolding claim_lease fence_found
  claim_lease_lem w now = elim (Option-cases (latest_lease_ownership lease_id w.store)) [
    | inl e ↦ rw e (grant_lem w now 1)
    | inr (c, e) ↦ elim (Bool-cases (c.status == "active")) [
      | inl a ↦
          rw (e, a)
            (grant_lem (record w { store = save_lease_ownership (superseded now c) w.store }) now
              (c.lease_epoch + 1))
      | inr a ↦ rw (e, a) (grant_lem w now (c.lease_epoch + 1))
    ]
  ]

-- The rows of a lease, its previous owner fenced, are below the next epoch.
pub fence_found-below :
    (lease_id : String) (now : Datetime) (r : Repository) (o : LeaseOwnershipRecord)
    → Memᴰ o (fence_found now (latest_lease_ownership lease_id r) r).lease_ownerships
    → o.lease_id ≡ lease_id
    → o.lease_epoch < next_epoch (latest_lease_ownership lease_id r)
unfolding fence_found save_lease_ownership
fence_found-below lease_id now r o m e = elim (Option-cases (latest_lease_ownership lease_id r)) [
  | inl h ↦ next_epoch-above lease_id r o (rw (h, fence_found) at m) e
  | inr (c, h) ↦ elim (Bool-cases (c.status == "active")) [
    | inl a ↦
        elim (mem-insert_or_replace ownership_key (superseded now c) r.lease_ownerships
          (rw (h, fence_found, a, save_lease_ownership) at m)) [
            | inl same ↦ rw (h, same) (ground arith)
            | inr (k, ne) ↦ next_epoch-above lease_id r o k e
          ]
    | inr a ↦ next_epoch-above lease_id r o (rw (h, fence_found, a) at m) e
  ]
]

validate-latest :
    (lease_id : String) (r : Repository) (o : LeaseOwnershipRecord) (other token : String)
    → latest_lease_ownership lease_id r ≡ some o
    → o.status ≡ "active"
    → validate_fencing lease_id other token r ≡ (o.worker_id == other && o.fencing_token == token)
unfolding validate_fencing
validate-latest lease_id r o other token h a =
    rw (h, validate_fencing, (eq_iff o.status "active").1 a) refl

module _ (env : Env) (gauges : Gauges) (lease_id queue_item_id task_id worker_id : String)
    (expires_at : Datetime) (host_id : String) (w : World Repository) (now : Datetime) where
  abbrev claiming : Result LeaseOwnershipRecord × World Repository
  claiming =
      claim_lease env gauges lease_id queue_item_id task_id worker_id expires_at (some now) host_id
        w

  claim-latest :
      (grant : IsGrant
        (fresh_id env "lease-owner-" w.draws)
        lease_id
        worker_id
        (next_epoch (latest_lease_ownership lease_id w.store))
        (fence_found now (latest_lease_ownership lease_id w.store) w.store)
        claiming)
      → latest_lease_ownership lease_id claiming.1.store ≡ some grant.owner
  claim-latest grant =
      let r = fence_found now (latest_lease_ownership lease_id w.store) w.store in
      latest_rows lease_id claiming.1.store (save_lease_ownership grant.owner r) grant.rows
      ∙ latest-save lease_id r grant.owner grant.of_lease (λ o m e ne.
        subst (λ z. o.lease_epoch < z) (sym grant.at_epoch)
          (fence_found-below lease_id now w.store o m e))

  -- After a claim the lease is owned by the claiming worker under the returned token, and by nobody
  -- else, whoever owned it before.
  pub claim_lease_owner :
      (other token : String)
      → (owner : LeaseOwnershipRecord) × (claiming.0 ≡ ok owner)
        × (latest_lease_ownership lease_id claiming.1.store ≡ some owner)
        × (owner.worker_id ≡ worker_id)
        × (validate_fencing lease_id other token claiming.1.store
            ≡ (worker_id == other && owner.fencing_token == token))
  claim_lease_owner other token =
      let grant =
        claim_lease_lem env gauges lease_id queue_item_id task_id worker_id expires_at host_id w
          now in
      (
        grant.owner,
        grant.returned,
        claim-latest grant,
        grant.to_worker,
        validate-latest lease_id claiming.1.store grant.owner other token (claim-latest grant)
              grant.active
            ∙ ap (λ z. z == other && grant.owner.fencing_token == token) grant.to_worker,
      )

  -- The epoch that a claim returns is above the epoch of each earlier ownership of the lease.
  claim_lease_epoch :
      (old : LeaseOwnershipRecord)
      → Memᴰ old w.store.lease_ownerships
      → old.lease_id ≡ lease_id
      → (owner : LeaseOwnershipRecord) × (claiming.0 ≡ ok owner)
        × (old.lease_epoch < owner.lease_epoch)
  claim_lease_epoch old m e =
      let grant =
        claim_lease_lem env gauges lease_id queue_item_id task_id worker_id expires_at host_id w
          now in
      (
        grant.owner,
        grant.returned,
        subst (λ z. old.lease_epoch < z) (sym grant.at_epoch)
            (next_epoch-above lease_id w.store old m e),
      )

module _ (env : Env) (gauges : Gauges) (lease_id worker_id fencing_token : String)
    (w : World Repository) where
  refusal :
      (current : LeaseOwnershipRecord) (expires_at : Datetime) (policy : Option LeaseRenewalPolicy)
      (host_id reason : String) (now? : Option Datetime)
      → latest_lease_ownership lease_id w.store ≡ some current
      → owns worker_id fencing_token current ≡ false
      → let renewal =
          renew_lease env gauges lease_id worker_id fencing_token expires_at now? policy host_id
            w in
        let ending = release_lease env gauges lease_id worker_id fencing_token reason now? w in
        (renewal.0 ≡ ok none)
        × (renewal.1.store.lease_ownerships ≡ w.store.lease_ownerships)
        × (renewal.1.store.workers ≡ w.store.workers)
        × (ending.0 ≡ ok none)
        × (ending.1.store.lease_ownerships ≡ w.store.lease_ownerships)
        × (ending.1.store.workers ≡ w.store.workers)
  unfolding renew_lease release_lease save_ownership_conflict_event
  refusal current expires_at policy host_id reason none h o =
      rw (h, o) (refl, refl, refl, refl, refl, refl)
  refusal current expires_at policy host_id reason (some now) h o =
      rw (h, o) (refl, refl, refl, refl, refl, refl)

ok_injective : {A : Type 0} {a b : A} → ok a ≡ ok b → a ≡ b
ok_injective {A} {a} e = ap value e
  where
    value : Result A → A
    value (ok x) = x
    value (err _) = a

-- A worker or a token other than those of an ownership does not own it.
pub ne-owned :
    (owner : LeaseOwnershipRecord) (worker_id token : String)
    → (owner.worker_id ≢ worker_id) ⊎ (owner.fencing_token ≢ token)
    → (owner.worker_id == worker_id && owner.fencing_token == token) ≡ false
ne-owned owner worker_id token (inl ne) = rw (==_ne owner.worker_id worker_id ne) refl
ne-owned owner worker_id token (inr ne) = let f = ==_ne owner.fencing_token token ne in ground arith

module _ (env : Env) (gauges : Gauges) (lease_id queue_item_id task_id worker_id : String)
    (expires_at : Datetime) (host_id : String) (w : World Repository) (now : Datetime) where
  abbrev claimed : Result LeaseOwnershipRecord × World Repository
  claimed =
      claim_lease env gauges lease_id queue_item_id task_id worker_id expires_at (some now) host_id
        w

  -- The ownership that a claim returns is the latest of its lease.
  pub claimed-latest :
      (owner : LeaseOwnershipRecord)
      → claimed.0 ≡ ok owner
      → (latest_lease_ownership lease_id claimed.1.store ≡ some owner)
        × (owner.worker_id ≡ worker_id)
        × (owner.status ≡ "active")
  claimed-latest owner e =
      let grant =
        claim_lease_lem env gauges lease_id queue_item_id task_id worker_id expires_at host_id w
          now in
      let same = ok_injective (sym grant.returned ∙ e) in
      (
        claim-latest env gauges lease_id queue_item_id task_id worker_id expires_at host_id w now
              grant
            ∙ ap some same,
        ap (λ o. o.worker_id) (sym same) ∙ grant.to_worker,
        ap (λ o. o.status) (sym same) ∙ grant.active,
      )

  -- Once a worker has claimed a lease, no call under another worker or another token renews or
  -- releases it, whoever owned the lease before: such calls return nothing, at any time, and the
  -- ownership rows and the workers stay as the claim left them.
  pub former_owner_is_refused :
      (owner : LeaseOwnershipRecord) (other token : String) (extended : Datetime)
      (policy : Option LeaseRenewalPolicy) (other_host reason : String) (later : Option Datetime)
      → claimed.0 ≡ ok owner
      → (worker_id ≢ other) ⊎ (owner.fencing_token ≢ token)
      → let renewal =
          renew_lease env gauges lease_id other token extended later policy other_host claimed.1 in
        let ending = release_lease env gauges lease_id other token reason later claimed.1 in
        (renewal.0 ≡ ok none)
        × (renewal.1.store.lease_ownerships ≡ claimed.1.store.lease_ownerships)
        × (renewal.1.store.workers ≡ claimed.1.store.workers)
        × (ending.0 ≡ ok none)
        × (ending.1.store.lease_ownerships ≡ claimed.1.store.lease_ownerships)
        × (ending.1.store.workers ≡ claimed.1.store.workers)
  unfolding owns
  former_owner_is_refused owner other token extended policy other_host reason later e ne =
      let (latest, to_worker, _) = claimed-latest owner e in
      let ne' = subst (λ z. (z ≢ other) ⊎ (owner.fencing_token ≢ token)) (sym to_worker) ne in
      refusal env gauges lease_id other token claimed.1 owner extended policy other_host reason
        later latest (ne-owned owner other token ne')
