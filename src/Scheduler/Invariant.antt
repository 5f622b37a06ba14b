-- ===== src/Scheduler/Invariant.antt =====
-- A tick keeps the jobs sound: what it dispatches had an attempt to spare, and what comes back has
-- its count back.
use magnemite.Prelude.{
  ℕ, ◌≡◌, refl, inl, inr, Bool-cases, Bool, true, some, arith, ◌&&◌, All-map, List, [], ◌∷◌,
  if_both, find, find-update_self, fun_ext,
}
use magnemite.Fleet.{Fleet}
use magnemite.Store.{
  Job, Rollout, Db, JobState, queued, job_key, find_job, update_job, log_job_event, is_queued,
}
use magnemite.Store.Laws.{
  IsSound, IsSound-of_same, JobIsSound, limit_of, log_job_event-IsSound, update_job-IsSound,
  find_job-IsSound,
}
use magnemite.Queue.{Candidate, candidates, is_candidate, is_due, is_dispatching}
use magnemite.Queue.Laws.{IsReady, candidates-IsKeyed, candidates-IsReady}
use magnemite.Install.{World, InstallJob, attach_config}
use magnemite.Jobs.{is_truthy}
use magnemite.Rollup.Frames.{recompute_rollout-IsSound}
use magnemite.Scheduler.{
  Loop, start_loop, is_skipped, send_install, dispatch_one, dispatch_queued, tick, set_dispatched,
  set_undispatched, promote, promote_soaking_rollouts,
}
use magnemite.Jobs.Invariant.Stalls.{requeue_stalled-IsSound}
use magnemite.Scheduler.Steps.{jobs-attach_config}
use magnemite.Scheduler.LoopRule.{dispatch_each_inv}

module _ (limit : ℕ → ℕ) (now : ℕ) (j : Job) (q : is_queued j.state ≡ true)
    (s : JobIsSound limit j) where
  set_dispatched-JobIsSound : JobIsSound limit (set_dispatched now j j)
  set_dispatched-JobIsSound = ground (arith, is_queued_eq j.state)
    where
      is_queued_eq : (x : JobState) → is_queued x ≡ true → x ≡ queued
      is_queued_eq x h = ground arith

  set_undispatched-JobIsSound : JobIsSound limit (set_undispatched j (set_dispatched now j j))
  set_undispatched-JobIsSound = ground arith

attach_config-IsSound :
    (w : World) (c : Candidate) (db : Db) → IsSound db → IsSound (attach_config w c db).1
unfolding attach_config log_job_event
attach_config-IsSound w c db h =
    IsSound-of_same db (attach_config w c db).1 (ground arith) (ground arith) h

send_install-IsSound :
    (w : World) (c : Candidate) (m : InstallJob) (s : Loop)
    → is_queued c.job.state ≡ true
    → find_job c.job.id s.db ≡ some c.job
    → IsSound s.db
    → IsSound (send_install w c m s).db
unfolding send_install update_job
send_install-IsSound w c m s q e h = elim (Bool-cases (w.send_to c.job.device_id m)) [
  | inl y ↦
      rw y
        (recompute_rollout-IsSound w.now c.rollout.id _ (log_job_event-IsSound _ _ _ _ _ (marked)))
  | inr n ↦ rw n (
      update_job-IsSound c.job.id (set_undispatched c.job) _ (λ i. refl) found
        (set_undispatched-JobIsSound _ w.now c.job q row) marked)
]
  where
    row : JobIsSound (limit_of s.db.rollouts) c.job
    row = find_job-IsSound c.job.id s.db e h

    marked : IsSound (update_job c.job.id (set_dispatched w.now c.job) s.db)
    marked =
        update_job-IsSound c.job.id (set_dispatched w.now c.job) s.db (λ i. refl) e
          (set_dispatched-JobIsSound _ w.now c.job q row) h

    found :
        find_job c.job.id (update_job c.job.id (set_dispatched w.now c.job) s.db)
        ≡ some (set_dispatched w.now c.job c.job)
    found =
        unfold update_job in
        find-update_self job_key c.job.id (set_dispatched w.now c.job) (λ i. refl) s.db.jobs e

dispatch_one-IsSound :
    (w : World) (c : Candidate) (s : Loop)
    → is_queued c.job.state ≡ true
    → find_job c.job.id s.db ≡ some c.job
    → IsSound s.db
    → IsSound (dispatch_one w c s).db
unfolding dispatch_one
dispatch_one-IsSound w c s q e h =
    if_both (λ (l : Loop). IsSound l.db) (is_skipped w s c) _ _ h
      (if_both (λ (l : Loop). IsSound l.db)
        (is_truthy c.version.artifact_path && is_truthy c.version.sha256) _ _
        (send_install-IsSound w c _ _ q (rw (jobs-attach_config w c s.db) e)
          (attach_config-IsSound w c s.db h))
        (log_job_event-IsSound _ _ _ _ _ h))

queued_of_ready :
    (now : ℕ) (fleet : Fleet) (db : Db) (c : Candidate)
    → IsReady now fleet db c
    → is_queued c.job.state ≡ true
unfolding is_candidate
queued_of_ready now fleet db c r =
    first (is_queued c.job.state) (is_dispatching c.rollout.status) c.device.approved
      (is_due now c.job.next_attempt_at) r.eligible
  where
    first : (a b c' d : Bool) → (a && b && c' && d) ≡ true → a ≡ true
    first a b c' d h = ground arith

pub dispatch_queued-IsSound :
    (w : World) (fleet : Fleet) (max_jobs : ℕ) (db : Db)
    → IsSound db
    → IsSound (dispatch_queued w fleet max_jobs db)
unfolding dispatch_queued
dispatch_queued-IsSound w fleet max_jobs db h =
    let cs = candidates w.now fleet db in
    let ready = candidates-IsReady w.now fleet db h.keyed in
    dispatch_each_inv w (λ (l : Loop). IsSound l.db) (IsReady w.now fleet db)
      (λ c s s' r k e _ same t p.
        rw same (dispatch_one-IsSound w c s (queued_of_ready w.now fleet db c r) e p))
      cs (start_loop fleet max_jobs db) (candidates-IsKeyed w.now fleet db h.keyed) ready h.keyed
      (All-map (IsReady w.now fleet db) (λ c. find job_key c.job.id db.jobs ≡ some c.job) cs
        (λ c r. r.held) ready)
      h

limit_of-promote :
    (now : ℕ) (rs : List Rollout) (k : ℕ) → limit_of (promote now rs) k ≡ limit_of rs k
unfolding promote find
limit_of-promote now [] k = refl
limit_of-promote now (r ∷ rs) k = ground (arith, limit_of-promote now rs k)

pub promote_soaking_rollouts-IsSound :
    (now : ℕ) (db : Db) → IsSound db → IsSound (promote_soaking_rollouts now db)
unfolding promote_soaking_rollouts
promote_soaking_rollouts-IsSound now db h = record {
  keyed = h.keyed;
  sound = rw (fun_ext (limit_of-promote now db.rollouts)) h.sound;
}

-- One tick of the scheduler (promotion, stalled jobs, dispatch) keeps a sound database sound.
pub tick-IsSound :
    (w : World) (fleet : Fleet) (max_jobs timeout_seconds : ℕ) (db : Db)
    → IsSound db
    → IsSound (tick w fleet max_jobs timeout_seconds db)
unfolding tick
tick-IsSound w fleet max_jobs timeout_seconds db h =
    dispatch_queued-IsSound w fleet max_jobs _ (
      requeue_stalled-IsSound w.now timeout_seconds _ (promote_soaking_rollouts-IsSound w.now db h))
