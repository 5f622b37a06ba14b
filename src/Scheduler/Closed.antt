-- ===== src/Scheduler/Closed.antt =====
-- A rollout that has ended takes no part in a tick: what `retryJob` queues again under it stays there.
use magnemite.Prelude.{
  ℕ, ◌≡◌, ◌∙◌, ◌||◌, refl, sym, ap, true, false, some, Bool, find-update_self, IsKeyed,
  update-IsKeyed, eq_of_some, arith, ◌&&◌,
}
use magnemite.Fleet.{Fleet}
use magnemite.Store.{
  publish_job, info, retry_requested, Job, Rollout, Db, RolloutStatus, job_key, find_job,
  find_rollout, queued, is_queued, is_terminal, update_job, publish, log_job_event,
}
use magnemite.Rollup.{is_closed, recompute_rollout}
use magnemite.Jobs.{retry_job, set_retried}
use magnemite.Queue.{Candidate, is_candidate, is_dispatching, is_due}
use magnemite.Queue.Laws.{IsReady}
use magnemite.Install.{World}
use magnemite.Scheduler.{dispatch_queued}
use magnemite.Scheduler.Fate.{Fate, kept, sent_off, put_back, dispatch_queued-Fate}

recompute_rollout-closed :
    (now k : ℕ) (db : Db) (r : Rollout)
    → find_rollout k db ≡ some r
    → is_closed r.status ≡ true
    → recompute_rollout now k db ≡ db
unfolding recompute_rollout
recompute_rollout-closed now k db r e c = rw (e, recompute_rollout) (rw c refl)

not_dispatching : (s : RolloutStatus) → is_closed s ≡ true → is_dispatching s ≡ false
not_dispatching s c = ground arith

module _ (w : World) (fleet : Fleet) (db : Db) (j : Job) (r : Rollout)
    (found : find_rollout j.rollout_id db ≡ some r) (closed : is_closed r.status ≡ true) where
  unready : (c : Candidate) → c.job ≡ j → IsReady w.now fleet db c → ⊥
  unfolding is_candidate
  unready c same ready =
      let own : c.rollout ≡ r =
        eq_of_some (
          sym ready.joined.rollout ∙ ap (λ (i : Job). find_rollout i.rollout_id db) same ∙ found) in
      let stopped : is_dispatching c.rollout.status ≡ false =
        not_dispatching c.rollout.status (rw own closed) in
      second (is_queued c.job.state) (is_dispatching c.rollout.status) c.device.approved
        (is_due w.now c.job.next_attempt_at) stopped ready.eligible
    where
      second : (a b d e : Bool) → b ≡ false → (a && b && d && e) ≡ true → ⊥
      second a b d e n h = ground arith

-- A tick dispatches no job of a rollout that has completed or was cancelled.
pub dispatch_queued-closed :
    (w : World) (fleet : Fleet) (max_jobs k : ℕ) (db : Db) (j : Job) (r : Rollout)
    → IsKeyed job_key db.jobs
    → find_job k db ≡ some j
    → find_rollout j.rollout_id db ≡ some r
    → is_closed r.status ≡ true
    → find_job k (dispatch_queued w fleet max_jobs db) ≡ some j
dispatch_queued-closed w fleet max_jobs k db j r keyed e f c =
    let (j', e', fate) = dispatch_queued-Fate w fleet max_jobs k db j keyed e in
    e' ∙ ap some (same j' fate)
  where
    same : (j' : Job) → Fate w fleet db j j' → j' ≡ j
    same j' (kept s) = s
    same j' (sent_off c' s ready _ _ _) = absurd (unready w fleet db j r f c c' s ready)
    same j' (put_back c' s ready _ _ _) = absurd (unready w fleet db j r f c c' s ready)

abbrev retried : ℕ → ℕ → Job → Db → Db
retried now k j db =
    publish_job j
      (log_job_event k retry_requested info (some queued) (update_job k (set_retried now) db))

retry_job_of_closed :
    (now k : ℕ) (db : Db) (j : Job) (r : Rollout)
    → find_job k db ≡ some j
    → find_rollout j.rollout_id db ≡ some r
    → is_closed r.status ≡ true
    → (is_terminal j.state || is_queued j.state) ≡ true
    → (retry_job now k db).0 ≡ retried now k j db
unfolding retry_job publish log_job_event update_job
retry_job_of_closed now k db j r e f c t =
    rw (e, retry_job) (rw t (recompute_rollout-closed now j.rollout_id (retried now k j db) r f c))

-- A retry of an ended job under a rollout that has completed or was cancelled puts the job in the
-- queue, where the dispatch of a tick leaves it as it is.
pub retry_job-closed :
    (w : World) (fleet : Fleet) (max_jobs now k : ℕ) (db : Db) (j : Job) (r : Rollout)
    → IsKeyed job_key db.jobs
    → find_job k db ≡ some j
    → find_rollout j.rollout_id db ≡ some r
    → is_closed r.status ≡ true
    → (is_terminal j.state || is_queued j.state) ≡ true
    → (find_job k (retry_job now k db).0 ≡ some (set_retried now j))
      × (find_job k (dispatch_queued w fleet max_jobs (retry_job now k db).0)
          ≡ some (set_retried now j))
unfolding publish log_job_event update_job
retry_job-closed w fleet max_jobs now k db j r keyed e f c t =
    let same = retry_job_of_closed now k db j r e f c t in
    let found = find-update_self job_key k (set_retried now) (λ i. refl) db.jobs e in
    rw same (
      found,
      dispatch_queued-closed w fleet max_jobs k (retried now k j db) (set_retried now j) r
          (update-IsKeyed job_key k (set_retried now) (λ i. refl) db.jobs keyed) found f c,
    )
