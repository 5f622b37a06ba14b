-- ===== src/Scheduler.antt =====
-- apps/hub/src/services/scheduler.ts: one tick of the scheduler. It promotes the rollouts whose soak
-- is over, re-queues stalled jobs, and dispatches queued ones within the caps.
pub mod Steps
pub mod LoopRule
pub mod Counted
pub mod Caps
pub mod Groups
pub mod Fate
pub mod Closed
pub mod Invariant
use magnemite.Prelude.{
  ℕ, ◌+◌, ◌-◌, ◌*◌, ◌==◌, leb, if◌then◌else◌, Bool, true, false, not, ◌&&◌, ◌||◌, Option, none,
  some, or_else, is_some, List, [], ◌∷◌, count_if,
}
use magnemite.Fleet.{Fleet, find_device}
use magnemite.Store.{
  queued, dispatched, canary, running, soaking, RolloutMode, info, error, is_active, same_status,
  Job, Rollout, not_cached, dispatched_to, Db, update_job, log_job_event,
}
use magnemite.Jobs.{is_truthy, requeue_stalled}
use magnemite.Rollup.{recompute_rollout}
use magnemite.Queue.{Candidate, candidates, ◌>>=◌}
use magnemite.Window.{inside_window}
use magnemite.Install.{World, InstallJob, attach_config, install_job}

-- `promoteSoakingRollouts`, the soak of one row being over.
abbrev pub is_soaked : ℕ → Rollout → Bool
is_soaked now r =
    same_status r.status soaking
    && is_some r.canary_passed_at
    && leb (or_else r.canary_passed_at 0 + r.soak_minutes * 60000) now

unfoldable pub promote : ℕ → List Rollout → List Rollout
promote now [] = []
promote now (r ∷ rs) =
    (if is_soaked now r then record r { status = running } else r) ∷ promote now rs

unfoldable pub promote_soaking_rollouts : ℕ → Db → Db
unfolding promote
promote_soaking_rollouts now db = record db { rollouts = promote now db.rollouts }

-- `Map<string, number>`, with `get(k) ?? 0`.
abbrev pub Counts : Type 0
Counts = ℕ → ℕ

abbrev pub add_one : ℕ → Counts → Counts
add_one k counts i = if i == k then counts i + 1 else counts i

abbrev pub add_group : Option ℕ → Counts → Counts
add_group none counts = counts
add_group (some g) counts = add_one g counts

group_id_of : Fleet → Job → Option ℕ
group_id_of fleet j = find_device j.device_id fleet >>= λ d. d.group_id

unfoldable pub count_groups : Fleet → List Job → Counts
unfolding group_id_of
count_groups fleet [] = λ _. 0
count_groups fleet (j ∷ js) =
    let rest = count_groups fleet js in
    if is_active j.state then add_group (group_id_of fleet j) rest else rest

-- What the dispatch loop carries from one candidate to the next.
pub record Loop : Type 0 where
  pub db : Db
  pub capacity : ℕ
  pub group_active : Counts
  pub rollout_active : Counts

abbrev pub is_full : Option ℕ → ℕ → Bool
is_full none active = false
is_full (some limit) active = leb limit active

abbrev pub group_full : Counts → Candidate → Bool
group_full counts c = elim c.device.group_id [
  | none ↦ false
  | some g ↦ is_full (c.group >>= λ row. row.max_concurrency) (counts g)
]

abbrev pub is_auto : RolloutMode → Bool
is_auto RolloutMode.auto = true
is_auto _ = false

-- The reasons to pass a candidate over, in the order of the loop.
unfoldable pub is_skipped : World → Loop → Candidate → Bool
is_skipped w s c =
    not (w.is_online c.job.device_id)
    || same_status c.rollout.status canary && not c.job.is_canary
    || is_auto c.rollout.mode
      && not (inside_window c.target.window_start c.target.window_end w.minutes)
    || group_full s.group_active c
    || is_full c.rollout.max_concurrency (s.rollout_active c.rollout.id)

abbrev pub set_dispatched : ℕ → Job → Job → Job
set_dispatched now seen row = record row {
  state = dispatched;
  attempt = seen.attempt + 1;
  dispatched_at = some now;
  heartbeat_at = some now;
  progress = 0;
}

abbrev pub set_undispatched : Job → Job → Job
set_undispatched seen row = record row {
  state = queued;
  attempt = seen.attempt;
  dispatched_at = none;
  heartbeat_at = none;
}

-- The loop's bookkeeping after a message went out.
unfoldable pub sent : World → Candidate → Loop → Loop
sent w c s = record {
  db = recompute_rollout w.now c.rollout.id (
      log_job_event c.job.id (dispatched_to (c.job.attempt + 1) c.version.version) info
        (some dispatched) s.db);
  capacity = s.capacity - 1;
  group_active = add_group c.device.group_id s.group_active;
  rollout_active = add_one c.rollout.id s.rollout_active;
}

-- Mark the job dispatched and send it; a socket that has died puts it back.
unfoldable pub send_install : World → Candidate → InstallJob → Loop → Loop
unfolding sent
send_install w c message s =
    let marked = update_job c.job.id (set_dispatched w.now c.job) s.db in
    if w.send_to c.job.device_id message
    then sent w c (record s { db = marked })
    else record s { db = update_job c.job.id (set_undispatched c.job) marked }

unfoldable pub dispatch_one : World → Candidate → Loop → Loop
dispatch_one w c s =
    if is_skipped w s c
    then s
    else (if is_truthy c.version.artifact_path && is_truthy c.version.sha256
        then (let (config, db) = attach_config w c s.db in
            send_install w c
              (install_job w c (or_else c.version.artifact_path "") (or_else c.version.sha256 "")
                config)
              (record s { db = db }))
        else record s { db = log_job_event c.job.id not_cached error none s.db })

unfoldable pub dispatch_each : World → List Candidate → Loop → Loop
dispatch_each w [] s = s
dispatch_each w (c ∷ cs) s = if s.capacity == 0 then s else dispatch_each w cs (dispatch_one w c s)

abbrev pub count_active : List Job → ℕ
count_active = count_if λ j. is_active j.state

-- The counts at the head of the loop; those of the rollouts begin at nothing.
abbrev pub start_loop : Fleet → (max_concurrent_jobs : ℕ) → Db → Loop
start_loop fleet max_concurrent_jobs db = record {
  db = db;
  capacity = max_concurrent_jobs - count_active db.jobs;
  group_active = count_groups fleet db.jobs;
  rollout_active = λ _. 0;
}

unfoldable pub dispatch_queued : World → Fleet → (max_concurrent_jobs : ℕ) → Db → Db
dispatch_queued w fleet max_concurrent_jobs db =
    (dispatch_each w (candidates w.now fleet db) (start_loop fleet max_concurrent_jobs db)).db

-- The part of a tick that works on rollouts and jobs.
unfoldable pub tick : World → Fleet → (max_concurrent_jobs job_stall_timeout_seconds : ℕ) → Db → Db
tick w fleet max_concurrent_jobs job_stall_timeout_seconds db =
    dispatch_queued w fleet max_concurrent_jobs
      (requeue_stalled w.now job_stall_timeout_seconds (promote_soaking_rollouts w.now db)).0
