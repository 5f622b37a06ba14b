-- ===== src/Jobs.antt =====
-- apps/hub/src/services/jobs.ts: what an agent's reports and an operator's buttons do to a job.
-- `new Date()` is the argument `now`, in
-- milliseconds; one call of an operation sees one instant. A row that a foreign key requires is
-- looked up, and the operation does nothing without it.
pub mod Invariant
pub mod Transitions
pub mod Backoff
pub mod Stalls
use magnemite.Prelude.{
  ℕ, ◌+◌, ◌-◌, ◌*◌, ◌/◌, ◌^◌, min, max, ltb, leb, if◌then◌else◌, Bool, false, not, ◌&&◌, ◌||◌,
  Option, none, some, or_else, or_maybe, is_some, String, str_eq, List, [], ◌∷◌, keep, length,
}
use magnemite.Store.{
  JobState, queued, success, failed, warn, error, info, InstallMode, is_active, is_terminal,
  is_queued, is_failed, JobError, reported, unknown_error, went_silent, Job, Rollout, agent_said,
  installed, failure, requeued, retry_requested, was_cancelled, stalled, Db, find_job, find_rollout,
  update_job, log_job_event, publish_job,
}
use magnemite.Rollup.{jobs_of, recompute_rollout}

-- `if (message)`: neither null nor empty.
abbrev pub is_truthy : Option String → Bool
is_truthy none = false
is_truthy (some s) = not (str_eq s "")

abbrev pub retry_backoff_ceiling_seconds : ℕ
retry_backoff_ceiling_seconds = 30 * 60

-- The hold after a job's failed attempt, in seconds.
unfoldable pub backoff_seconds : ℕ → ℕ → ℕ
backoff_seconds base attempt = min (base * 2 ^ (attempt - 1)) retry_backoff_ceiling_seconds

unfoldable pub next_attempt_at : ℕ → ℕ → ℕ → Option ℕ
next_attempt_at now base attempt =
    if leb base 0 then none else some (now + backoff_seconds base attempt * 1000)

abbrev set_progress : ℕ → JobState → ℕ → Job → Job → Job
set_progress now state progress seen row = record row {
  state = state;
  progress = max 0 (min 100 progress);
  heartbeat_at = some now;
  started_at = some (or_else seen.started_at now);
}

unfoldable pub apply_progress : ℕ → ℕ → JobState → ℕ → Option String → Db → Db
apply_progress now job_id state progress message db = elim (find_job job_id db) [
  | none ↦ db
  | some j ↦
      if is_terminal j.state
      then db
      else publish_job j (
          let updated = update_job job_id (set_progress now state progress j) db in
          if is_truthy message
          then log_job_event job_id (agent_said (or_else message "")) info (some state) updated
          else updated)
]

pub record JobOutcome : Type 0 where
  pub ok : Bool
  pub install_mode : Option InstallMode
  pub data_wiped : Option Bool
  pub installed_version : Option String
  pub error_text : Option String

abbrev set_success : ℕ → JobOutcome → Job → Job → Job
set_success now outcome seen row = record row {
  state = success;
  progress = 100;
  finished_at = some now;
  install_mode = or_maybe outcome.install_mode seen.install_mode;
  data_wiped = or_else outcome.data_wiped seen.data_wiped;
  last_error = none;
}

abbrev error_of : Option String → JobError
error_of none = unknown_error
error_of (some text) = reported text

abbrev set_failure : ℕ → JobOutcome → (can_retry : Bool) → Option ℕ → Job → Job → Job
set_failure now outcome can_retry retry_at seen row = record row {
  state = if can_retry then queued else failed;
  progress = 0;
  last_error = some (error_of outcome.error_text);
  data_wiped = or_else outcome.data_wiped seen.data_wiped;
  install_mode = or_maybe outcome.install_mode seen.install_mode;
  next_attempt_at = retry_at;
  finished_at = if can_retry then none else some now;
}

-- `Math.round((retryAt - now) / 1000)`.
abbrev held_seconds : ℕ → Option ℕ → Option ℕ
held_seconds now none = none
held_seconds now (some t) = some ((t - now + 500) / 1000)

abbrev pub can_retry : Job → Rollout → Bool
can_retry j r = ltb j.attempt r.max_attempts

abbrev pub retry_time : ℕ → Job → Rollout → Option ℕ
retry_time now j r =
    if can_retry j r then next_attempt_at now r.retry_backoff_seconds j.attempt else none

unfoldable pub succeed : ℕ → JobOutcome → Job → Db → Db
succeed now outcome j db = publish_job j (
    log_job_event j.id (installed (or_else outcome.installed_version j.to_version)) info
      (some success) (update_job j.id (set_success now outcome j) db))

unfoldable pub fail_attempt : ℕ → JobOutcome → Job → Rollout → Db → Db
fail_attempt now outcome j r db =
    let again = can_retry j r in
    let retry_at = retry_time now j r in
    let updated = update_job j.id (set_failure now outcome again retry_at j) db in
    let logged =
      log_job_event j.id (failure outcome.error_text) error
        (some (if again then queued else failed)) updated in
    publish_job j (
      if again
      then log_job_event j.id (requeued (j.attempt + 1) r.max_attempts (held_seconds now retry_at))
          info (some queued) logged
      else logged)

unfoldable pub complete_job : ℕ → ℕ → JobOutcome → Db → Db
complete_job now job_id outcome db = elim (find_job job_id db) [
  | none ↦ db
  | some j ↦ elim (find_rollout j.rollout_id db) [
    | none ↦ db
    | some r ↦
        if is_terminal j.state
        then db
        else recompute_rollout now j.rollout_id
            (if outcome.ok then succeed now outcome j db else fail_attempt now outcome j r db)
  ]
]

abbrev pub set_retried : ℕ → Job → Job
set_retried now row = record row {
  state = queued;
  progress = 0;
  attempt = 0;
  next_attempt_at = none;
  last_error = none;
  queued_at = now;
  dispatched_at = none;
  started_at = none;
  heartbeat_at = none;
  finished_at = none;
}

unfoldable pub retry_job : ℕ → ℕ → Db → Db × Option Job
retry_job now job_id db = elim (find_job job_id db) [
  | none ↦ (db, none)
  | some j ↦
      if is_terminal j.state || is_queued j.state
      then (
        recompute_rollout now j.rollout_id (
            publish_job j (
              log_job_event job_id retry_requested info (some queued)
                (update_job job_id (set_retried now) db))),
        some (set_retried now j),
      )
      else (db, some j)
]

retry_each : ℕ → List Job → Db → Db
retry_each now [] db = db
retry_each now (j ∷ js) db = retry_each now js (retry_job now j.id db).0

unfoldable pub retry_failed_jobs : ℕ → ℕ → Db → Db × ℕ
unfolding retry_each
retry_failed_jobs now rollout_id db =
    let failures = keep (λ j. is_failed j.state) (jobs_of rollout_id db) in
    (retry_each now failures db, length failures)

abbrev set_cancelled : ℕ → Job → Job
set_cancelled now row = record row { state = JobState.cancelled; finished_at = some now }

unfoldable pub cancel_job : ℕ → ℕ → Db → Db × Option Job
cancel_job now job_id db = elim (find_job job_id db) [
  | none ↦ (db, none)
  | some j ↦ if is_terminal j.state then (db, some j) else (
    recompute_rollout now j.rollout_id (
        publish_job j (
          log_job_event job_id was_cancelled info (some JobState.cancelled)
            (update_job job_id (set_cancelled now) db))),
    some (set_cancelled now j),
  )
]

-- `t < now - seconds * 1000` for an instant that may be null, over the integers.
abbrev is_before : ℕ → ℕ → Option ℕ → Bool
is_before now seconds none = false
is_before now seconds (some t) = ltb (t + seconds * 1000) now

abbrev pub is_stalled : ℕ → ℕ → Job → Bool
is_stalled now timeout_seconds j =
    is_active j.state
    && (is_before now timeout_seconds j.heartbeat_at
        || not (is_some j.heartbeat_at) && is_before now timeout_seconds j.dispatched_at)

abbrev set_stalled : ℕ → ℕ → Job → Rollout → Job → Job
set_stalled now timeout_seconds seen r row = record row {
  state = if can_retry seen r then queued else failed;
  progress = 0;
  last_error = some (went_silent timeout_seconds seen.state);
  next_attempt_at = retry_time now seen r;
  finished_at = if can_retry seen r then none else some now;
}

unfoldable pub requeue_one : ℕ → ℕ → Job → Db → Db
requeue_one now timeout_seconds j db = elim (find_rollout j.rollout_id db) [
  | none ↦ db
  | some r ↦ recompute_rollout now j.rollout_id (
      publish_job j (
        log_job_event j.id (stalled j.state (can_retry j r)) warn none
          (update_job j.id (set_stalled now timeout_seconds j r) db)))
]

unfoldable pub requeue_each : ℕ → ℕ → List Job → Db → Db
requeue_each now timeout_seconds [] db = db
requeue_each now timeout_seconds (j ∷ js) db =
    requeue_each now timeout_seconds js (requeue_one now timeout_seconds j db)

unfoldable pub requeue_stalled : ℕ → ℕ → Db → Db × ℕ
requeue_stalled now timeout_seconds db =
    let found = keep (is_stalled now timeout_seconds) db.jobs in
    (requeue_each now timeout_seconds found db, length found)
