-- ===== src/Jobs/Invariant.antt =====
-- Every operation of jobs.ts keeps the jobs sound: progress within 100, attempts within the
-- rollout's limit, a queued job with an attempt to spare, and an end that is dated.
pub mod Stalls
use magnemite.Prelude.{
  ℕ, ◌≡◌, refl, inl, inr, if◌then◌else◌, Option-cases, if_both, if_either, sym, true, false, some,
  arith, Option, String, ◌||◌, List, [], ◌∷◌, subst, keep, key-find,
}
use magnemite.Store.{
  JobState, queued, failed, failure, error, Job, Rollout, Db, find_job, find_rollout, job_key,
  update_job, is_active, is_terminal, is_queued, is_failed,
}
use magnemite.Store.Laws.{
  JobIsSound, limit_of, limit_of-find, find_job-IsSound, update_job-IsSound, IsSound,
  log_job_event-IsSound, publish-IsSound,
}
use magnemite.Rollup.Frames.{recompute_rollout-IsSound}
use magnemite.Jobs.{
  is_truthy, set_progress, apply_progress, JobOutcome, succeed, fail_attempt, complete_job,
  can_retry, retry_job, cancel_job, set_retried, set_cancelled, set_success, set_failure,
  set_stalled, retry_time, retry_each, retry_failed_jobs,
}
use magnemite.Rollup.{jobs_of}

-- A report on an active state.
pub apply_progress-IsSound :
    (now k : ℕ) (state : JobState) (progress : ℕ) (message : Option String) (db : Db)
    → is_active state ≡ true
    → IsSound db
    → IsSound (apply_progress now k state progress message db)
unfolding apply_progress
apply_progress-IsSound now k state progress message db a h = elim (Option-cases (find_job k db)) [
  | inl e ↦ rw (e, apply_progress) h
  | inr (j, e) ↦
      rw (e, apply_progress)
        (if_either IsSound (is_terminal j.state) _ _ (λ t. h)
          (λ t. publish-IsSound _ _ (
            if_both IsSound (is_truthy message) _ _
              (log_job_event-IsSound _ _ _ _ _ (updated j e t)) (updated j e t))))
]
  where
    updated :
        (j : Job)
        → find_job k db ≡ some j
        → is_terminal j.state ≡ false
        → IsSound (update_job k (set_progress now state progress j) db)
    updated j e t =
        let s = find_job-IsSound k db e h in
        update_job-IsSound k (set_progress now state progress j) db (λ row. refl) e (ground arith) h

-- The job that a report is about is the one found under its key.
abbrev Found : ℕ → Db → Job → Rollout → Type 0
Found k db j r = (find_job k db ≡ some j) × (find_rollout j.rollout_id db ≡ some r)

found_self : (k : ℕ) (db : Db) {j : Job} → find_job k db ≡ some j → find_job j.id db ≡ some j
found_self k db {j} e = subst (λ i. find_job i db ≡ some j) (sym (key-find job_key k db.jobs e)) e

succeed-IsSound :
    (now : ℕ) (outcome : JobOutcome) (j : Job) (db : Db)
    → find_job j.id db ≡ some j
    → IsSound db
    → IsSound (succeed now outcome j db)
unfolding succeed
succeed-IsSound now outcome j db e h =
    let s = find_job-IsSound j.id db e h in
    publish-IsSound _ _ (
      log_job_event-IsSound _ _ _ _ _
        (update_job-IsSound j.id (set_success now outcome j) db (λ row. refl) e (ground arith) h))

-- The row of a failed or silent attempt: queued again while attempts are left.
module _ (limit : ℕ → ℕ) (j : Job) (r : Rollout) (same : limit j.rollout_id ≡ r.max_attempts)
    (s : JobIsSound limit j) where
  set_failure-JobIsSound :
      (now : ℕ) (outcome : JobOutcome) (t : Option ℕ)
      → JobIsSound limit (set_failure now outcome (can_retry j r) t j j)
  set_failure-JobIsSound now outcome t = ground arith

  set_stalled-JobIsSound :
      (now timeout_seconds : ℕ) → JobIsSound limit (set_stalled now timeout_seconds j r j)
  set_stalled-JobIsSound now timeout_seconds = ground arith

fail_attempt-IsSound :
    (now : ℕ) (outcome : JobOutcome) (j : Job) (r : Rollout) (db : Db)
    → find_job j.id db ≡ some j
    → find_rollout j.rollout_id db ≡ some r
    → IsSound db
    → IsSound (fail_attempt now outcome j r db)
unfolding fail_attempt
fail_attempt-IsSound now outcome j r db e f h =
    let row =
      set_failure-JobIsSound (limit_of db.rollouts) j r (limit_of-find j.rollout_id db f)
        (find_job-IsSound j.id db e h) now outcome (retry_time now j r) in
    let logged =
      log_job_event-IsSound j.id (failure outcome.error_text) error
        (some (if can_retry j r then queued else failed)) _
        (update_job-IsSound j.id _ db (λ row. refl) e row h) in
    publish-IsSound _ _
      (if_both IsSound (can_retry j r) _ _ (log_job_event-IsSound _ _ _ _ _ logged) logged)

pub complete_job-IsSound :
    (now k : ℕ) (outcome : JobOutcome) (db : Db)
    → IsSound db
    → IsSound (complete_job now k outcome db)
unfolding complete_job
complete_job-IsSound now k outcome db h = elim (Option-cases (find_job k db)) [
  | inl e ↦ rw (e, complete_job) h
  | inr (j, e) ↦ elim (Option-cases (find_rollout j.rollout_id db)) [
    | inl f ↦ rw (e, complete_job) (rw f h)
    | inr (r, f) ↦
        rw (e, complete_job)
          (rw f (
            if_both IsSound (is_terminal j.state) _ _ h (
              recompute_rollout-IsSound now j.rollout_id _ (
                if_both IsSound outcome.ok _ _
                  (succeed-IsSound now outcome j db (found_self k db e) h)
                  (fail_attempt-IsSound now outcome j r db (found_self k db e) f h)))))
  ]
]

set_retried-JobIsSound :
    (limit : ℕ → ℕ) (now : ℕ) (j : Job) → JobIsSound limit j → JobIsSound limit (set_retried now j)
set_retried-JobIsSound limit now j s = ground arith

set_cancelled-JobIsSound :
    (limit : ℕ → ℕ) (now : ℕ) (j : Job)
    → JobIsSound limit j
    → JobIsSound limit (set_cancelled now j)
set_cancelled-JobIsSound limit now j s = ground arith

pub retry_job-IsSound : (now k : ℕ) (db : Db) → IsSound db → IsSound (retry_job now k db).0
unfolding retry_job
retry_job-IsSound now k db h = elim (Option-cases (find_job k db)) [
  | inl e ↦ rw (e, retry_job) h
  | inr (j, e) ↦
      let row = set_retried-JobIsSound _ now j (find_job-IsSound k db e h) in
      rw (e, retry_job)
        (if_both (λ (p : Db × Option Job). IsSound p.0) (is_terminal j.state || is_queued j.state) _
          _
          (recompute_rollout-IsSound now j.rollout_id _ (
            publish-IsSound _ _ (
              log_job_event-IsSound _ _ _ _ _
                (update_job-IsSound k (set_retried now) db (λ row. refl) e row h))))
          h)
]

pub cancel_job-IsSound : (now k : ℕ) (db : Db) → IsSound db → IsSound (cancel_job now k db).0
unfolding cancel_job
cancel_job-IsSound now k db h = elim (Option-cases (find_job k db)) [
  | inl e ↦ rw (e, cancel_job) h
  | inr (j, e) ↦
      let row = set_cancelled-JobIsSound _ now j (find_job-IsSound k db e h) in
      rw (e, cancel_job)
        (if_both (λ (p : Db × Option Job). IsSound p.0) (is_terminal j.state) _ _ h
          (recompute_rollout-IsSound now j.rollout_id _ (
            publish-IsSound _ _ (
              log_job_event-IsSound _ _ _ _ _
                (update_job-IsSound k (set_cancelled now) db (λ row. refl) e row h)))))
]

retry_each-IsSound :
    (now : ℕ) (js : List Job) (db : Db) → IsSound db → IsSound (retry_each now js db)
unfolding retry_each
retry_each-IsSound now [] db h = h
retry_each-IsSound now (j ∷ js) db h =
    retry_each-IsSound now js (retry_job now j.id db).0 (retry_job-IsSound now j.id db h)

pub retry_failed_jobs-IsSound :
    (now k : ℕ) (db : Db) → IsSound db → IsSound (retry_failed_jobs now k db).0
unfolding retry_failed_jobs
retry_failed_jobs-IsSound now k db h =
    retry_each-IsSound now (keep (λ j. is_failed j.state) (jobs_of k db)) db h
