-- ===== src/Scheduler/Steps.antt =====
-- What the turn of one candidate does to the jobs and to the loop's counts.
use magnemite.Prelude.{
  ◌-◌, ◌≡◌, refl, inl, inr, Bool-cases, false, arith, update, ◌&&◌, ◌∙◌, ap, Bool, true, or_else,
  Option,
}
use magnemite.Store.{Db, job_key, update_job, log_job_event}
use magnemite.Queue.{Candidate}
use magnemite.Install.{World, ConfigFile, InstallJob, attach_config, install_job}
use magnemite.Jobs.{is_truthy}
use magnemite.Rollup.Frames.{jobs-recompute_rollout}
use magnemite.Scheduler.{
  Loop, is_skipped, dispatch_one, send_install, set_dispatched, set_undispatched, add_group,
  add_one,
}

abbrev pub order_for : World → Candidate → Option ConfigFile → InstallJob
order_for w c config =
    install_job w c (or_else c.version.artifact_path "") (or_else c.version.sha256 "") config

-- The build is cached, and the box was sent the order to install it, with this answer of the socket.
pub record IsAnswered (w : World) (c : Candidate) (db : Db) (answer : Bool) : Type 0 where
  pub cached : is_truthy c.version.artifact_path && is_truthy c.version.sha256 ≡ true
  pub answered : w.send_to c.job.device_id (order_for w c (attach_config w c db).0) ≡ answer

-- How a candidate's turn may end: passed over, sent, or put back because its socket had died.
pub data Turn (w : World) (c : Candidate) (s s' : Loop) : Type 0 where
  passed :
      s'.db.jobs ≡ s.db.jobs
      → s'.capacity ≡ s.capacity
      → s'.group_active ≡ s.group_active
      → s'.rollout_active ≡ s.rollout_active
      → Turn w c s s'
  went :
      is_skipped w s c ≡ false
      → IsAnswered w c s.db true
      → s'.db.jobs ≡ update job_key c.job.id (set_dispatched w.now c.job) s.db.jobs
      → s'.capacity ≡ s.capacity - 1
      → s'.group_active ≡ add_group c.device.group_id s.group_active
      → s'.rollout_active ≡ add_one c.rollout.id s.rollout_active
      → Turn w c s s'
  came_back :
      is_skipped w s c ≡ false
      → IsAnswered w c s.db false
      → s'.db.jobs
        ≡ update job_key c.job.id
            (set_undispatched c.job)
            (update job_key c.job.id (set_dispatched w.now c.job) s.db.jobs)
      → s'.capacity ≡ s.capacity
      → s'.group_active ≡ s.group_active
      → s'.rollout_active ≡ s.rollout_active
      → Turn w c s s'

pub jobs-attach_config :
    (w : World) (c : Candidate) (db : Db) → (attach_config w c db).1.jobs ≡ db.jobs
unfolding attach_config log_job_event
jobs-attach_config w c db = ground arith

-- The config that rides along does not depend on the rows.
pub config-attach_config :
    (w : World) (c : Candidate) (db db' : Db) → (attach_config w c db).0 ≡ (attach_config w c db').0
unfolding attach_config
config-attach_config w c db db' = ground arith

send_install-Turn :
    (w : World) (c : Candidate) (m : InstallJob) (s t : Loop)
    → is_skipped w s c ≡ false
    → t.db.jobs ≡ s.db.jobs
    → t.capacity ≡ s.capacity
    → t.group_active ≡ s.group_active
    → t.rollout_active ≡ s.rollout_active
    → ((b : Bool) → w.send_to c.job.device_id m ≡ b → IsAnswered w c s.db b)
    → Turn w c s (send_install w c m t)
unfolding send_install log_job_event update_job
send_install-Turn w c m s t k j p g r told = elim (Bool-cases (w.send_to c.job.device_id m)) [
  | inl y ↦ rw y (
      went k (told true y)
        (jobs-recompute_rollout w.now c.rollout.id _
          ∙ ap (update job_key c.job.id (set_dispatched w.now c.job)) j)
        (ap (λ n. n - 1) p) (ap (add_group c.device.group_id) g) (ap (add_one c.rollout.id) r))
  | inr n ↦ rw n (
      came_back k (told false n)
        (ap
          (λ js.
            update job_key c.job.id (set_undispatched c.job)
              (update job_key c.job.id (set_dispatched w.now c.job) js))
          j)
        p g r)
]

module _ (w : World) (c : Candidate) (s : Loop) where
  start_install-Turn :
      is_skipped w s c ≡ false
      → is_truthy c.version.artifact_path && is_truthy c.version.sha256 ≡ true
      → Turn w c s (
          send_install w c
            (order_for w c (attach_config w c s.db).0)
            (record s { db = (attach_config w c s.db).1 }))
  start_install-Turn n cached =
      send_install-Turn w c _ s _ n (jobs-attach_config w c s.db) refl refl refl
        (λ b e. record { cached = cached; answered = e })

  pub dispatch_one-Turn : Turn w c s (dispatch_one w c s)
  unfolding dispatch_one log_job_event
  dispatch_one-Turn = elim (Bool-cases (is_skipped w s c)) [
    | inl y ↦ rw y (passed refl refl refl refl)
    | inr n ↦
        rw n (elim (Bool-cases (is_truthy c.version.artifact_path && is_truthy c.version.sha256)) [
          | inl t ↦ rw t (start_install-Turn n t)
          | inr f ↦ rw f (passed refl refl refl refl)
        ])
  ]
