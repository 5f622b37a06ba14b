-- ===== src/Tests/Jobs.antt =====
-- The reports, the retries and the rollup of jobs.ts at concrete rows.
use magnemite.Prelude.{
  update, find, ◌≡◌, refl, false, [], ◌∷◌, some, others, All, map, if◌then◌else◌, keep,
}
use magnemite.Store.{
  update_job, update_rollout, log_job_event, publish, Job, Rollout, JobState, job_key, find_job,
  find_rollout,
}
use magnemite.Rollup.{commit, decide, canary_verdict, recompute_rollout, jobs_of}
use magnemite.Rollup.Gate.{Gate, recompute_rollout-Gate}
use magnemite.Jobs.{requeue_each, requeue_one, complete_job, requeue_stalled, is_stalled}
use magnemite.Jobs.Transitions.{Reported, complete_job-Reported}
use magnemite.Jobs.Stalls.{put_back, policy_of, requeue_stalled_sweep, requeue_stalled_clears}
use magnemite.Tests.Samples.{
  db, now, canary_rollout, last_try, failure_report, db-IsKeyed, db-IsSound,
}

complete_job-Reported_example :
    (j' : Job) × (find_job 2 (complete_job now 2 failure_report db) ≡ some j')
    × Reported now failure_report canary_rollout last_try j'
    × (others job_key 2 (complete_job now 2 failure_report db).jobs ≡ others job_key 2 db.jobs)
unfolding find
complete_job-Reported_example =
    complete_job-Reported now 2 failure_report db last_try canary_rollout refl refl refl

recompute_rollout-Gate_example :
    (r' : Rollout) × (find_rollout 1 (recompute_rollout now 1 db) ≡ some r')
    × Gate now (jobs_of 1 db) (keep (λ j. j.is_canary) (jobs_of 1 db)) canary_rollout r'
unfolding find
recompute_rollout-Gate_example = recompute_rollout-Gate now 1 db canary_rollout refl refl

requeue_stalled_sweep_example :
    (requeue_stalled now 600 db).0.jobs
    ≡ map
        (λ j.
          if is_stalled now 600 j
          then put_back now 600 (policy_of db.rollouts j.rollout_id) j j
          else j)
        db.jobs
requeue_stalled_sweep_example = requeue_stalled_sweep now 600 db db-IsKeyed

requeue_stalled_clears_example :
    All (λ j. is_stalled now 600 j ≡ false) (requeue_stalled now 600 db).0.jobs
requeue_stalled_clears_example = requeue_stalled_clears now 600 db db-IsSound

-- The box of the second job went silent in its last attempt.
stalled_fails :
    map (λ (j : Job). j.state) (requeue_stalled now 600 db).0.jobs
    ≡ JobState.queued ∷ JobState.failed ∷ JobState.failed ∷ []
unfolding requeue_stalled requeue_each requeue_one recompute_rollout update_rollout update_job
    update log_job_event publish find commit decide canary_verdict
stalled_fails = refl
