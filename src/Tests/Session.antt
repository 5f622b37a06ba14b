-- ===== src/Tests/Session.antt =====
-- The messages of a box and its return at concrete rows.
use magnemite.Prelude.{◌≡◌, refl, none, some, find, map, if◌then◌else◌}
use magnemite.Store.{Job, JobState, find_job}
use magnemite.Store.Laws.{IsSound, limit_of}
use magnemite.Session.{job_result, handle, reconcile_jobs, set_requeued}
use magnemite.Session.Ownership.{handle_foreign}
use magnemite.Session.Reconcile.{is_lost, reconcile_jobs_sweep}
use magnemite.Session.Attempts.{reconcile_jobs_overruns}
use magnemite.Tests.Samples.{db, now, last_try, failure_report, db-IsKeyed, db-IsSound}

handle_foreign_example : handle now 1 (job_result 2 failure_report) db ≡ db
unfolding find
handle_foreign_example =
    handle_foreign now 1 2 (job_result 2 failure_report) db last_try refl refl refl

reconcile_jobs_sweep_example :
    (reconcile_jobs 2 none db).0.jobs
    ≡ map (λ j. if is_lost 2 none j then set_requeued j else j) db.jobs
reconcile_jobs_sweep_example = reconcile_jobs_sweep 2 none db db-IsKeyed

reconcile_jobs_overruns_example :
    (j' : Job) × (find_job 2 (reconcile_jobs 2 none db).0 ≡ some j')
    × (j'.state ≡ JobState.queued)
    × (j'.attempt ≡ limit_of (reconcile_jobs 2 none db).0.rollouts j'.rollout_id)
    × ¬ IsSound (reconcile_jobs 2 none db).0
unfolding find
reconcile_jobs_overruns_example =
    reconcile_jobs_overruns 2 2 none db last_try db-IsSound refl refl refl
