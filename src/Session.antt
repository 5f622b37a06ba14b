-- ===== src/Session.antt =====
-- apps/hub/src/ws/deviceSocket.ts: what the messages of a connected box do to its jobs, and how a
-- box that comes back is brought in line with the database.
pub mod Ownership
pub mod Reconcile
pub mod Attempts
use magnemite.Prelude.{
  ℕ, ◌==◌, if◌then◌else◌, Bool, false, ◌&&◌, Option, none, some, String, List, [], ◌∷◌, any, keep,
}
use magnemite.Store.{
  JobState, queued, LogLevel, warn, is_active, Job, agent_said, reconnected_without_job, Db,
  find_job, update_job, log_job_event, publish_job,
}
use magnemite.Jobs.{JobOutcome, apply_progress, complete_job}

-- The messages of a box that are about its jobs.
pub data AgentMessage : Type 0 where
  heartbeat : (current_job : Option ℕ) → AgentMessage
  job_progress : (job_id : ℕ) → JobState → (progress : ℕ) → (message : Option String) → AgentMessage
  job_result : (job_id : ℕ) → JobOutcome → AgentMessage
  log : (job_id : Option ℕ) → LogLevel → (message : String) → AgentMessage

-- A device may only touch its own jobs.
unfoldable pub assert_job_belongs_to : ℕ → ℕ → (Db → Db) → Db → Db
assert_job_belongs_to device_id job_id fn db = elim (find_job job_id db) [
  | none ↦ db
  | some j ↦ if j.device_id == device_id then fn db else db
]

abbrev set_heartbeat : ℕ → Job → Job
set_heartbeat now row = if is_active row.state then record row { heartbeat_at = some now } else row

unfoldable pub handle : ℕ → ℕ → AgentMessage → Db → Db
unfolding assert_job_belongs_to
handle now device_id (heartbeat none) db = db
handle now device_id (heartbeat (some k)) db = update_job k (set_heartbeat now) db
handle now device_id (job_progress k state progress message) db =
    assert_job_belongs_to device_id k (apply_progress now k state progress message) db
handle now device_id (job_result k outcome) db =
    assert_job_belongs_to device_id k (complete_job now k outcome) db
handle now device_id (log none level message) db = db
handle now device_id (log (some k) level message) db =
    assert_job_belongs_to device_id k (log_job_event k (agent_said message) level none) db

-- `job.id === agentJobId`.
abbrev pub is_agents : Option ℕ → ℕ → Bool
is_agents none k = false
is_agents (some a) k = k == a

abbrev pub set_requeued : Job → Job
set_requeued row = record row {
  state = queued;
  progress = 0;
  next_attempt_at = none;
  dispatched_at = none;
  heartbeat_at = none;
}

unfoldable pub requeue_lost : Option ℕ → List Job → Db → Db
requeue_lost agent [] db = db
requeue_lost agent (j ∷ js) db = requeue_lost agent js (
    if is_agents agent j.id
    then db
    else publish_job j
        (log_job_event j.id reconnected_without_job warn none (update_job j.id set_requeued db)))

abbrev pub active_on : ℕ → Job → Bool
active_on device_id j = j.device_id == device_id && is_active j.state

-- The job that the box is told to drop.
abbrev to_cancel : Option ℕ → List Job → Option ℕ
to_cancel none active = none
to_cancel (some a) active = if any (λ j. j.id == a) active then none else some a

unfoldable pub reconcile_jobs : ℕ → Option ℕ → Db → Db × Option ℕ
unfolding requeue_lost
reconcile_jobs device_id agent db =
    let active = keep (active_on device_id) db.jobs in
    (requeue_lost agent active db, to_cancel agent active)
