-- ===== src/Coordination/Backend/Refinement.antt =====
-- The lease operations implement an abstract machine that keeps one holder for each lease.
pub mod Steps
use contract_evidence_os.Prelude.{
  String, ◌+◌, arith, ◌≡◌, ◌≢◌, refl, sym, ◌∙◌, ap, subst, Bool, true, false, ◌&&◌, Option, none,
  some, List, ◌==◌, ==_refl, eq_iff, ne_of_==, Bool-cases, Option-cases, inl, inr, ◌⊎◌, ◌||◌, Memᴰ,
  if◌then◌else◌,
}
use contract_evidence_os.Base.Exec.{Datetime, Env, World, fresh_id, seconds, bind_keeps}
use contract_evidence_os.Coordination.Models.{
  LeaseOwnershipRecord, LeaseRenewalPolicy, WorkStealPolicy,
}
use contract_evidence_os.Coordination.Backend.{
  Gauges, owns, validate_fencing, claim_lease, renew_lease, release_lease, next_epoch,
}
use contract_evidence_os.Coordination.Backend.Latest.{latest_mem, latest_rows}
use contract_evidence_os.Coordination.Backend.Ownership.{
  not_active, WellOwned, active-latest, rewrite-WellOwned,
}
use contract_evidence_os.Coordination.Backend.Fencing.{superseded, fence_found, claim_lease_lem}
use contract_evidence_os.Coordination.Backend.Reach.{
  fenced-WellOwned, claim_lease-WellOwned, record_steal_keeps, Step, claims, renews, releases,
  steals,
}
use contract_evidence_os.Coordination.Backend.Steal.{
  steal_lease, may_steal, safety_checks, record_steal, steal_current, save_contention,
}
use contract_evidence_os.Coordination.Backend.Holder.{
  holder, IsIdle, holder-IsIdle, holder-active, holder_frame, is_holder, validate_fencing-holder,
}
use contract_evidence_os.Storage.Table.Laws.{mem-insert_or_replace, insert_or_replace-mem}
use contract_evidence_os.Storage.Repository.{
  Repository, latest_lease_ownership, save_lease_ownership, ownership_key, load_worker, save_worker,
  save_ownership_conflict_event, save_renewal_attempt, save_lease_expiry_forecast,
  save_lease_contention_record,
}

abbrev pub Holders : Type 0
Holders = String → Option (String × String)

abbrev pub AgreeBut : String → Holders → Holders → Type 0
AgreeBut lease_id before after =
    (other : String) → (lease_id == other) ≡ false → after other ≡ before other

abbrev pub AgreeAll : Holders → Holders → Type 0
AgreeAll before after = (lease_id : String) → after lease_id ≡ before lease_id

-- A lease operation with its arguments, but for the instant at which it is called.
pub data Operation : Type 0 where
  claim : String → String → String → String → Datetime → String → Operation
  renew : String → String → String → Datetime → Option LeaseRenewalPolicy → String → Operation
  release : String → String → String → String → Operation
  steal : String → String → String → String → WorkStealPolicy → Operation

-- What the abstract machine, which keeps one holder for each lease, does for an operation: how the
-- holders change, and the token in the reply.
abbrev pub Spec : Operation → Holders → Option String → Holders → Type 0
Spec (claim lease_id _ _ worker_id _ _) before reply after =
    (token : String) × (reply ≡ some token)
    × (after lease_id ≡ some (worker_id, token))
    × AgreeBut lease_id before after
Spec (renew lease_id worker_id token _ _ _) before reply after =
    (reply ≡ (if is_holder (before lease_id) worker_id token then some token else none))
    × AgreeAll before after
Spec (release lease_id worker_id token _) before reply after =
    (after lease_id
      ≡ (if is_holder (before lease_id) worker_id token then none else before lease_id))
    × AgreeBut lease_id before after
    × ((is_holder (before lease_id) worker_id token ≡ false) ⊎ (reply ≡ some token))
Spec (steal lease_id _ _ new_worker_id policy) before reply after =
    AgreeAll before after
    ⊎ (((policy.allow_steal_from_draining || policy.allow_steal_from_stale) ≡ true)
        × (former : String × String) × (token : String) × (before lease_id ≡ some former)
        × (after lease_id ≡ some (new_worker_id, token))
        × AgreeBut lease_id before after)

-- The holders that a repository stands for.
abbrev pub holders : Repository → Holders
holders r lease_id = holder lease_id r

-- Only the ownership rows matter.
pub holder_rows :
    (r r' : Repository) (lease_id : String)
    → r.lease_ownerships ≡ r'.lease_ownerships
    → holder lease_id r ≡ holder lease_id r'
unfolding holder
holder_rows r r' lease_id e = rw (holder, latest_rows lease_id r r' e) refl

pub same_rows :
    (r r' : Repository)
    → r'.lease_ownerships ≡ r.lease_ownerships
    → AgreeAll (holders r) (holders r')
same_rows r r' e lease_id = holder_rows r' r lease_id e

pub holder-none :
    (lease_id : String) (r : Repository)
    → latest_lease_ownership lease_id r ≡ none
    → holder lease_id r ≡ none
unfolding holder
holder-none lease_id r e = rw (holder, e) refl

pub holder_latest :
    (lease_id : String) (r : Repository) (c : LeaseOwnershipRecord)
    → latest_lease_ownership lease_id r ≡ some c
    → holder lease_id r
      ≡ (if c.status == "active" then some (c.worker_id, c.fencing_token) else none)
unfolding holder
holder_latest lease_id r c e = rw (holder, e) refl

-- The holder is who owns an active latest ownership.
pub is_holder-owns :
    (lease_id worker_id token : String) (r : Repository) (c : LeaseOwnershipRecord)
    → latest_lease_ownership lease_id r ≡ some c
    → is_holder (holder lease_id r) worker_id token
      ≡ (owns worker_id token c && c.status == "active")
unfolding owns
is_holder-owns lease_id worker_id token r c e =
    rw (holder_latest lease_id r c e) (elim (Bool-cases (c.status == "active")) [
      | inl t ↦ rw t (ground arith)
      | inr f ↦ rw f (ground arith)
    ])

-- The latest ownership of a lease is rewritten under its key.
module _ (lease_id : String) (r : Repository) (c v : LeaseOwnershipRecord)
    (h : WellOwned r.lease_ownerships) (h' : WellOwned (save_lease_ownership v r).lease_ownerships)
    (latest : latest_lease_ownership lease_id r ≡ some c) (key : v.ownership_id ≡ c.ownership_id)
    (lease : v.lease_id ≡ c.lease_id) where
  pub rewrite_frame : AgreeBut lease_id (holders r) (holders (save_lease_ownership v r))
  rewrite_frame other ne =
      let (m, l) = latest_mem lease_id r c latest in
      holder_frame r v other h h' (λ e. ne_of_== lease_id other ne (sym l ∙ sym lease ∙ e))
        (λ o i k. elim (Bool-cases (o.ownership_id == v.ownership_id)) [
          | inl t ↦ absurd (
              let same = h.unique o c i m ((eq_iff o.ownership_id v.ownership_id).0 t ∙ key) in
              ne_of_== lease_id other ne (sym l ∙ sym (ap (λ z. z.lease_id) same) ∙ k))
          | inr f ↦ f
        ])

  -- Without an active row among the others, the lease is held no more.
  rewrite-IsIdle : v.status ≢ "active" → IsIdle lease_id (save_lease_ownership v r)
  unfolding save_lease_ownership
  rewrite-IsIdle off o m l a = elim (mem-insert_or_replace ownership_key v r.lease_ownerships m) [
    | inl same ↦ off (sym (ap (λ z. z.status) same) ∙ a)
    | inr (i, ne) ↦ absurd (
        let same =
          active-latest r o c h i a
            (subst (λ z. latest_lease_ownership z r ≡ some c) (sym l) latest) in
        let t = (eq_iff o.ownership_id v.ownership_id).1 (sym (ap ownership_key same) ∙ sym key) in
        cc)
  ]

  pub rewrite_renews :
      c.status ≡ "active"
      → v.status ≡ "active"
      → v.worker_id ≡ c.worker_id
      → v.fencing_token ≡ c.fencing_token
      → AgreeAll (holders r) (holders (save_lease_ownership v r))
  unfolding save_lease_ownership
  rewrite_renews a a' worker token other = elim (Bool-cases (lease_id == other)) [
    | inr f ↦ rewrite_frame other f
    | inl t ↦
        let (m, l) = latest_mem lease_id r c latest in
        let l' = l ∙ (eq_iff lease_id other).0 t in
        holder-active other (save_lease_ownership v r) h' v
          (insert_or_replace-mem ownership_key v r.lease_ownerships) (lease ∙ l') a'
        ∙ rw (worker, token) (sym (holder-active other r h c m l' a))
  ]

  pub rewrite_drops : v.status ≢ "active" → holder lease_id (save_lease_ownership v r) ≡ none
  rewrite_drops off = holder-IsIdle lease_id (save_lease_ownership v r) (rewrite-IsIdle off)
