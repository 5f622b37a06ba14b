-- ===== src/Jobs/Transitions.antt =====
-- What a report, a retry and a cancel make of a job.
use magnemite.Prelude.{
  ℕ, ◌≡◌, ◌≤◌, ◌<◌, inl, inr, ap, ◌∙◌, if◌then◌else◌, Option-cases, Bool-cases, true, false, some,
  none, arith, Option, String, others, others-update, find-update_self, update, key-find,
}
use magnemite.Store.{
  JobState, queued, failed, success, Job, Rollout, Db, find_job, find_rollout, job_key, update_job,
  publish, log_job_event, is_terminal,
}
use magnemite.Rollup.Frames.{jobs-recompute_rollout}
use magnemite.Jobs.{
  apply_progress, JobOutcome, succeed, fail_attempt, complete_job, cancel_job, set_success,
  set_failure, next_attempt_at, retry_time, can_retry,
}

-- A job that has ended stays as it is, and so does all else: a report of progress, a final report
-- and a cancel that reach it change nothing at all, not even the log.
pub terminal_absorbs :
    (now k : ℕ) (db : Db) (j : Job)
    → find_job k db ≡ some j
    → is_terminal j.state ≡ true
    → (state : JobState) (progress : ℕ) (message : Option String) (outcome : JobOutcome)
    → (apply_progress now k state progress message db ≡ db)
      × (complete_job now k outcome db ≡ db)
      × (cancel_job now k db ≡ (db, some j))
unfolding apply_progress complete_job cancel_job
terminal_absorbs now k db j e t state progress message outcome = (
  rw (e, apply_progress) (rw t),
  elim (Option-cases (find_rollout j.rollout_id db)) [
    | inl f ↦ rw (e, complete_job) (rw f)
    | inr (r, f) ↦ rw (e, complete_job) (rw f (rw t))
  ],
  rw (e, cancel_job) (rw t),
)

-- What a final report may make of a job.
pub data Reported (now : ℕ) (outcome : JobOutcome) (r : Rollout) (j j' : Job) : Type 0 where
  succeeded :
      outcome.ok ≡ true
      → j'.state ≡ success
      → j'.progress ≡ 100
      → j'.finished_at ≡ some now
      → j'.last_error ≡ none
      → Reported now outcome r j j'
  requeued :
      outcome.ok ≡ false
      → j.attempt < r.max_attempts
      → j'.state ≡ queued
      → j'.finished_at ≡ none
      → j'.next_attempt_at ≡ next_attempt_at now r.retry_backoff_seconds j.attempt
      → Reported now outcome r j j'
  gave_up :
      outcome.ok ≡ false
      → r.max_attempts ≤ j.attempt
      → j'.state ≡ failed
      → j'.finished_at ≡ some now
      → j'.next_attempt_at ≡ none
      → Reported now outcome r j j'

-- The change of the row that a final report makes.
abbrev change : ℕ → JobOutcome → Job → Rollout → Job → Job
change now outcome j r =
    if outcome.ok
    then set_success now outcome j
    else set_failure now outcome (can_retry j r) (retry_time now j r) j

change-Reported :
    (now : ℕ) (outcome : JobOutcome) (j : Job) (r : Rollout)
    → Reported now outcome r j (change now outcome j r j)
change-Reported now outcome j r = elim (Bool-cases outcome.ok) [
  | inl y ↦ succeeded y (ground arith) (ground arith) (ground arith) (ground arith)
  | inr n ↦ elim (Bool-cases (can_retry j r)) [
    | inl again ↦ requeued n (ground arith) (ground arith) (ground arith) (ground arith)
    | inr last ↦ gave_up n (ground arith) (ground arith) (ground arith) (ground arith)
  ]
]

jobs-report :
    (now : ℕ) (outcome : JobOutcome) (j : Job) (r : Rollout) (db : Db)
    → (if outcome.ok then succeed now outcome j db else fail_attempt now outcome j r db).jobs
      ≡ (update_job j.id (change now outcome j r) db).jobs
unfolding succeed fail_attempt publish log_job_event update_job
jobs-report now outcome j r db = elim (Bool-cases outcome.ok) [
  | inl y ↦ rw y
  | inr n ↦ rw n (elim (Bool-cases (can_retry j r)) [ inl y ↦ rw y | inr n' ↦ rw n' ])
]

change-id :
    (now : ℕ) (outcome : JobOutcome) (j : Job) (r : Rollout) (row : Job)
    → (change now outcome j r row).id ≡ row.id
change-id now outcome j r row = ground arith

jobs-complete_job :
    (now k : ℕ) (outcome : JobOutcome) (db : Db) (j : Job) (r : Rollout)
    → find_job k db ≡ some j
    → find_rollout j.rollout_id db ≡ some r
    → is_terminal j.state ≡ false
    → (complete_job now k outcome db).jobs ≡ update job_key k (change now outcome j r) db.jobs
unfolding complete_job update_job
jobs-complete_job now k outcome db j r e f t =
    rw (e, complete_job)
      (rw f (
        rw t (
          jobs-recompute_rollout now j.rollout_id _
          ∙ jobs-report now outcome j r db
          ∙ ap (λ i. update job_key i (change now outcome j r) db.jobs)
              (key-find job_key k db.jobs e))))

-- A final report on a job that runs: a success ends it, a failure puts it back in the queue under
-- the rollout's hold while it has attempts left, and otherwise fails it. No other job changes.
pub complete_job-Reported :
    (now k : ℕ) (outcome : JobOutcome) (db : Db) (j : Job) (r : Rollout)
    → find_job k db ≡ some j
    → find_rollout j.rollout_id db ≡ some r
    → is_terminal j.state ≡ false
    → (j' : Job) × (find_job k (complete_job now k outcome db) ≡ some j')
      × Reported now outcome r j j'
      × (others job_key k (complete_job now k outcome db).jobs ≡ others job_key k db.jobs)
complete_job-Reported now k outcome db j r e f t =
    let jobs = jobs-complete_job now k outcome db j r e f t in
    let same = change-id now outcome j r in
    (
      change now outcome j r j,
      rw jobs (find-update_self job_key k _ same db.jobs e),
      change-Reported now outcome j r,
      rw jobs (others-update job_key k _ db.jobs same),
    )
