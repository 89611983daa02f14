-- ===== src/Registry/Manager/Gate.antt =====
-- The gate between evaluation and promotion.
use Prim.Native.String.{◌++◌}
use contract_evidence_os.Prelude.{
  ◌+◌, String, ◌≡◌, refl, true, false, some, ◌==◌, eq_iff, if◌then◌else◌, Bool-cases, inl, inr, ◌⊎◌,
}
use contract_evidence_os.Base.Float.{Arithmetic}
use contract_evidence_os.Base.Exec.{Env, World, ok, err, value_error, fresh_id}
use contract_evidence_os.Registry.Models.{
  PolicyScope, PolicyCandidate, PolicyPromotionRun, StrategyEvaluationReport,
}
use contract_evidence_os.Registry.Manager.{
  has_passed, evaluated_gain, regressions_of, evaluate_candidate, promote_under, promote_candidate,
}
use contract_evidence_os.Registry.Manager.Promotion.{
  AreOlder, latest-save, promote_candidate_activates,
}
use contract_evidence_os.Storage.Table.Laws.{find_row-insert_or_replace, key-find_row}
use contract_evidence_os.Storage.Repository.{Repository}
use contract_evidence_os.Storage.Repository.Policies.{
  candidate_key, load_policy_scope, save_policy_candidate, load_policy_candidate,
  save_policy_promotion_run, latest_policy_promotion_run,
}

module _ (env : Env) (arithmetic : Arithmetic) (candidate_id : String)
    (report : StrategyEvaluationReport) (w : World Repository) (candidate : PolicyCandidate)
    (scope : PolicyScope) (found : load_policy_candidate candidate_id w.store ≡ some candidate)
    (in_scope : load_policy_scope candidate.scope_id w.store ≡ some scope)
    (later : AreOlder candidate_id (env.clock w.readings) w.store) where
  -- The run that the evaluation saves, and the world that it leaves.
  abbrev evaluated_run : PolicyPromotionRun
  evaluated_run = record {
    version = "1.0";
    run_id = fresh_id env "policy-promotion-run-" w.draws;
    candidate_id = candidate_id;
    status = if has_passed arithmetic report.metrics then "passed" else "failed";
    gain = evaluated_gain arithmetic report.metrics;
    regressions = regressions_of report.metrics;
    summary = "policy candidate evaluation completed";
    report_metrics = report.metrics;
    created_at = env.clock w.readings;
  }

  abbrev judged : PolicyCandidate
  judged = record candidate {
    status = if evaluated_run.status == "passed" then "evaluated" else "rejected";
  }

  abbrev evaluated : World Repository
  evaluated = record {
    store = save_policy_candidate judged (save_policy_promotion_run evaluated_run w.store);
    draws = w.draws + 1;
    readings = w.readings + 1;
  }

  evaluate_candidate_lem :
      evaluate_candidate env arithmetic candidate_id report w ≡ (ok evaluated_run, evaluated)
  unfolding evaluate_candidate load_policy_candidate save_policy_promotion_run
  evaluate_candidate_lem = rw found refl

  found_again : load_policy_candidate candidate_id evaluated.store ≡ some judged
  unfolding load_policy_candidate save_policy_candidate save_policy_promotion_run
  found_again =
      let of_id =
        key-find_row candidate_key candidate_id w.store.policy_candidates candidate found in
      rw
        (
          find_row-insert_or_replace candidate_key,
          (eq_iff candidate.candidate_id candidate_id).1 of_id,
        )
        refl

  latest_again : latest_policy_promotion_run candidate_id evaluated.store ≡ some evaluated_run
  unfolding save_policy_candidate latest_policy_promotion_run
  latest_again = latest-save evaluated_run w.store later

  scope_again : load_policy_scope judged.scope_id evaluated.store ≡ some scope
  unfolding load_policy_scope save_policy_candidate save_policy_promotion_run
  scope_again = in_scope

  -- A promotion right after an evaluation, of a stored candidate with a stored scope whose earlier
  -- runs are older than the evaluation, succeeds if the evaluation passed; if it did not, the promotion raises
  -- `ValueError` and changes nothing.
  pub promote-evaluate_gate :
      ((has_passed arithmetic report.metrics ≡ true)
        × (promoted : PolicyPromotionRun) × ((promote_candidate env candidate_id
              (evaluate_candidate env arithmetic candidate_id report w).1).0
            ≡ ok promoted))
      ⊎ ((has_passed arithmetic report.metrics ≡ false)
          × (promote_candidate env candidate_id
                (evaluate_candidate env arithmetic candidate_id report w).1
              ≡ (
                err (value_error ("candidate " ++ candidate_id ++ " has not passed evaluation")),
                (evaluate_candidate env arithmetic candidate_id report w).1,
              )))
  unfolding promote_candidate promote_under
  promote-evaluate_gate =
      rw evaluate_candidate_lem (elim (Bool-cases (has_passed arithmetic report.metrics)) [
        | inl p ↦
            let (promoted, _, e, _, _, _, _, _, _) =
              promote_candidate_activates env candidate_id evaluated judged found_again
                evaluated_run scope latest_again (rw p refl) scope_again in
            inl (p, promoted, e)
        | inr f ↦ inr (f, rw (found_again, latest_again, f) refl)
      ])
