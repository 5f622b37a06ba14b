-- ===== src/Rollup.antt =====
-- `recomputeRollout` of apps/hub/src/services/jobs.ts: how the jobs of a rollout roll up into its
-- status.
pub mod Frames
pub mod Gate
pub mod Stable
use magnemite.Prelude.{
  ℕ, ◌==◌, ltb, if◌then◌else◌, Bool, true, false, not, ◌&&◌, ◌||◌, none, some, List, all, any, keep,
  length,
}
use magnemite.Store.{
  RolloutStatus, paused, completed, running, soaking, canary, is_terminal, is_failed, is_success,
  same_status, Job, Rollout, BusEvent, Db, find_rollout, update_rollout, publish,
}

-- The canary part of `recomputeRollout`: the new status, and whether the canary passed.
unfoldable pub canary_verdict : Rollout → List Job → RolloutStatus × Bool
canary_verdict r jobs =
    let canaries = keep (λ j. j.is_canary) jobs in
    if same_status r.status canary
      && ltb 0 (length canaries)
      && all (λ j. is_terminal j.state) canaries
    then (if any (λ j. is_failed j.state) canaries
        then (paused, false)
        else if any (λ j. is_success j.state) canaries
        then ((if ltb 0 r.soak_minutes then soaking else running), true)
        else (r.status, false))
    else (r.status, false)

abbrev pub is_closed : RolloutStatus → Bool
is_closed s = same_status s completed || same_status s RolloutStatus.cancelled

-- What rolling up decides: the status to write, and which of the two instants to stamp.
pub record Verdict : Type 0 where
  pub status : RolloutStatus
  pub passed : Bool
  pub finished : Bool

unfoldable pub decide : Rollout → List Job → Verdict
unfolding canary_verdict
decide r jobs =
    let (verdict, passed) = canary_verdict r jobs in
    let finished = all (λ j. is_terminal j.state) jobs && not (same_status verdict paused) in
    record {
      status = if finished then completed else verdict;
      passed = passed;
      finished = finished;
    }

abbrev pub set_rollup : ℕ → Verdict → Rollout → Rollout
set_rollup now v row = record row {
  status = v.status;
  canary_passed_at = if v.passed then some now else row.canary_passed_at;
  finished_at = if v.finished then some now else row.finished_at;
}

abbrev pub is_changed : Rollout → Verdict → Bool
is_changed r v = not (same_status v.status r.status) || (v.passed || v.finished)

-- The write at the end of `recomputeRollout`, made if anything changed.
unfoldable pub commit : ℕ → Rollout → Verdict → Db → Db
commit now r v db =
    if is_changed r v
    then publish (BusEvent.rollout r.id) (update_rollout r.id (set_rollup now v) db)
    else db

abbrev pub jobs_of : ℕ → Db → List Job
jobs_of rollout_id db = keep (λ j. j.rollout_id == rollout_id) db.jobs

unfoldable pub recompute_rollout : ℕ → ℕ → Db → Db
recompute_rollout now rollout_id db = elim (find_rollout rollout_id db) [
  | none ↦ db
  | some r ↦ if is_closed r.status then db else commit now r (decide r (jobs_of rollout_id db)) db
]
