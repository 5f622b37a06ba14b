-- ===== src/Hub.antt =====
-- The hub's work on rollouts and jobs as a whole: the messages of the boxes (apps/hub/src/ws/
-- deviceSocket.ts), the operator's actions (the routes of apps/hub/src/routes/internal.ts on
-- rollouts and jobs) and the ticks of the scheduler, one after another.
pub mod Reachable
use magnemite.Prelude.{ℕ}
use magnemite.Fleet.{Fleet}
use magnemite.Store.{Db}
use magnemite.Jobs.{retry_job, retry_failed_jobs, cancel_job}
use magnemite.Rollouts.{
  Surroundings, CreateRolloutInput, Result, returned, thrown, create_rollout, cancel_rollout,
  resume_rollout,
}
use magnemite.Session.{AgentMessage, handle}
use magnemite.Install.{World}
use magnemite.Scheduler.{tick}

pub data Command : Type 0 where
  agent_message : (device_id : ℕ) → AgentMessage → Command
  create : Surroundings → CreateRolloutInput → Command
  cancel : (rollout_id : ℕ) → Command
  resume : (rollout_id : ℕ) → Command
  retry_failed : (rollout_id : ℕ) → Command
  retry : (job_id : ℕ) → Command
  cancel_one : (job_id : ℕ) → Command
  run_tick : World → (max_concurrent_jobs job_stall_timeout_seconds : ℕ) → Command

-- What a request that fails leaves of the database.
abbrev pub or_same : Db → Result Db → Db
or_same db (returned db') = db'
or_same db (thrown e) = db

unfoldable pub apply : ℕ → Fleet → Command → Db → Db
apply now fleet (agent_message device_id m) db = handle now device_id m db
apply now fleet (create w input) db = elim (create_rollout w input fleet db) [
  | returned out ↦ out.0
  | thrown e ↦ db
]
apply now fleet (cancel rollout_id) db = (cancel_rollout now rollout_id db).0
apply now fleet (resume rollout_id) db = or_same db (resume_rollout now rollout_id db)
apply now fleet (retry_failed rollout_id) db = (retry_failed_jobs now rollout_id db).0
apply now fleet (retry job_id) db = (retry_job now job_id db).0
apply now fleet (cancel_one job_id) db = (cancel_job now job_id db).0
apply now fleet (run_tick w max_jobs timeout_seconds) db = tick w fleet max_jobs timeout_seconds db
