-- ===== src/Jobs/Invariant/Stalls.antt =====
-- `requeueStalled` keeps the jobs sound: each job that it read is still as it was read when its
-- turn comes.
use magnemite.Prelude.{
  ℕ, ◌≡◌, refl, inl, inr, Option-cases, some, none, List, [], ◌∷◌, AreHeld, keyed-AreHeld, keep-All,
  keep-IsKeyed, IsKeyed, update-AreHeld, find,
}
use magnemite.Store.{Job, Db, find_job, find_rollout, job_key, update_job, publish, log_job_event}
use magnemite.Store.Laws.{
  limit_of, limit_of-find, find_job-IsSound, update_job-IsSound, IsSound, log_job_event-IsSound,
  publish-IsSound,
}
use magnemite.Rollup.Frames.{recompute_rollout-IsSound, jobs-recompute_rollout}
use magnemite.Jobs.{set_stalled, requeue_one, requeue_each, requeue_stalled, is_stalled}
use magnemite.Jobs.Invariant.{set_stalled-JobIsSound}

requeue_one-IsSound :
    (now timeout_seconds : ℕ) (j : Job) (db : Db)
    → find_job j.id db ≡ some j
    → IsSound db
    → IsSound (requeue_one now timeout_seconds j db)
unfolding requeue_one
requeue_one-IsSound now timeout_seconds j db e h =
    elim (Option-cases (find_rollout j.rollout_id db)) [
      | inl f ↦ rw (f, requeue_one) h
      | inr (r, f) ↦
          let row =
            set_stalled-JobIsSound (limit_of db.rollouts) j r (limit_of-find j.rollout_id db f)
              (find_job-IsSound j.id db e h) now timeout_seconds in
          rw (f, requeue_one)
            (recompute_rollout-IsSound now j.rollout_id _ (
              publish-IsSound _ _ (
                log_job_event-IsSound _ _ _ _ _
                  (update_job-IsSound j.id _ db (λ row. refl) e row h))))
    ]

-- The other jobs that were read are still as they were.
requeue_one-AreHeld :
    (now timeout_seconds : ℕ) (j : Job) (js : List Job) (db : Db)
    → find job_key j.id js ≡ none
    → AreHeld job_key db.jobs js
    → AreHeld job_key (requeue_one now timeout_seconds j db).jobs js
unfolding requeue_one publish log_job_event update_job
requeue_one-AreHeld now timeout_seconds j js db u h =
    elim (Option-cases (find_rollout j.rollout_id db)) [
      | inl f ↦ rw (f, requeue_one) h
      | inr (r, f) ↦
          rw (f, requeue_one)
            (rw (jobs-recompute_rollout now j.rollout_id _) (
              update-AreHeld job_key j.id (set_stalled now timeout_seconds j r) db.jobs js
                (λ row. refl) u h))
    ]

requeue_each-IsSound :
    (now timeout_seconds : ℕ) (js : List Job) (db : Db)
    → IsKeyed job_key js
    → AreHeld job_key db.jobs js
    → IsSound db
    → IsSound (requeue_each now timeout_seconds js db)
unfolding requeue_each
requeue_each-IsSound now timeout_seconds [] db u a h = h
requeue_each-IsSound now timeout_seconds (j ∷ js) db (u, us) (e, a) h =
    requeue_each-IsSound now timeout_seconds js (requeue_one now timeout_seconds j db) us
      (requeue_one-AreHeld now timeout_seconds j js db u a)
      (requeue_one-IsSound now timeout_seconds j db e h)

pub requeue_stalled-IsSound :
    (now timeout_seconds : ℕ) (db : Db)
    → IsSound db
    → IsSound (requeue_stalled now timeout_seconds db).0
unfolding requeue_stalled
requeue_stalled-IsSound now timeout_seconds db h =
    let p = is_stalled now timeout_seconds in
    requeue_each-IsSound now timeout_seconds _ db (keep-IsKeyed job_key p db.jobs h.keyed)
      (keep-All _ p db.jobs (keyed-AreHeld job_key db.jobs h.keyed)) h
