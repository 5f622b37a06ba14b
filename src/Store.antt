-- ===== src/Store.antt =====
-- The rows that the hub keeps in the database for its rollouts and their jobs, after
-- packages/db/prisma/schema.base.prisma and its uses in apps/hub/src/services. Keys (cuid strings)
-- and instants (Date, in milliseconds) are natural numbers. `Db` is the state that the operations
-- of Jobs, Rollouts and Scheduler pass on: the two tables, the log of job events and the messages
-- that the bus (apps/hub/src/bus.ts) has sent, newest first.
pub mod Laws
use magnemite.Prelude.{ℕ, ◌==◌, Bool, true, false, Option, String, List, ◌∷◌, find, update}

pub data JobState : Type 0 where
  queued dispatched downloading extracting installing verifying : JobState
  success failed cancelled skipped : JobState

pub data RolloutStatus : Type 0 where
  pending canary soaking running paused completed cancelled : RolloutStatus

pub data RolloutMode : Type 0 where
  manual auto : RolloutMode

pub data HookMode : Type 0 where
  normal post_only none : HookMode

pub data LogLevel : Type 0 where
  debug info warn error : LogLevel

pub data InstallMode : Type 0 where
  in_place clean : InstallMode

-- ACTIVE_STATES.includes(state).
abbrev pub is_active : JobState → Bool
is_active dispatched = true
is_active downloading = true
is_active extracting = true
is_active installing = true
is_active verifying = true
is_active _ = false

-- TERMINAL_STATES.includes(state).
abbrev pub is_terminal : JobState → Bool
is_terminal success = true
is_terminal failed = true
is_terminal cancelled = true
is_terminal skipped = true
is_terminal _ = false

abbrev pub is_queued : JobState → Bool
is_queued queued = true
is_queued _ = false

abbrev pub is_failed : JobState → Bool
is_failed failed = true
is_failed _ = false

abbrev pub is_success : JobState → Bool
is_success success = true
is_success _ = false

abbrev status_code : RolloutStatus → ℕ
status_code pending = 0
status_code canary = 1
status_code soaking = 2
status_code running = 3
status_code paused = 4
status_code completed = 5
status_code cancelled = 6

-- `a === b` on the statuses of a rollout.
abbrev pub same_status : RolloutStatus → RolloutStatus → Bool
same_status a b = status_code a == status_code b

-- The text of `lastError`.
pub data JobError : Type 0 where
  reported : String → JobError
  unknown_error : JobError
  went_silent : (timeout_seconds : ℕ) → JobState → JobError

pub record Job : Type 0 where
  pub id : ℕ
  pub rollout_id : ℕ
  pub device_id : ℕ
  pub state : JobState
  pub progress : ℕ
  pub is_canary : Bool
  pub attempt : ℕ
  pub last_error : Option JobError
  pub install_mode : Option InstallMode
  pub data_wiped : Bool
  pub from_version : Option String
  pub to_version : String
  pub queued_at : ℕ
  pub next_attempt_at : Option ℕ
  pub dispatched_at : Option ℕ
  pub started_at : Option ℕ
  pub heartbeat_at : Option ℕ
  pub finished_at : Option ℕ

pub record Rollout : Type 0 where
  pub id : ℕ
  pub app_version_id : ℕ
  pub mode : RolloutMode
  pub status : RolloutStatus
  pub force_clean : Bool
  pub canary_count : ℕ
  pub soak_minutes : ℕ
  pub max_concurrency : Option ℕ
  pub max_attempts : ℕ
  pub retry_backoff_seconds : ℕ
  pub pre_install_hook : Option String
  pub post_install_hook : Option String
  pub hook_mode : HookMode
  pub write_config : Bool
  pub note : Option String
  pub created_by_id : Option ℕ
  pub canary_passed_at : Option ℕ
  pub started_at : Option ℕ
  pub finished_at : Option ℕ

-- The lines of a job's log.
pub data Message : Type 0 where
  agent_said : String → Message
  installed : String → Message
  failure : Option String → Message
  requeued : (attempt max_attempts : ℕ) (held_seconds : Option ℕ) → Message
  retry_requested : Message
  was_cancelled : Message
  stalled : JobState → (can_retry : Bool) → Message
  already_on : String → Message
  not_cached : Message
  config_not_sent : String → Message
  agent_too_old : Message
  dispatched_to : (attempt : ℕ) (version : String) → Message
  reconnected_without_job : Message

pub record JobEvent : Type 0 where
  pub job_id : ℕ
  pub message : Message
  pub level : LogLevel
  pub phase : Option JobState

pub data BusEvent : Type 0 where
  device : (device_id : ℕ) → BusEvent
  job : (job_id rollout_id device_id : ℕ) → BusEvent
  rollout : (rollout_id : ℕ) → BusEvent
  version : (version_id : ℕ) → BusEvent

pub record Db : Type 0 where
  pub jobs : List Job
  pub rollouts : List Rollout
  pub events : List JobEvent
  pub bus : List BusEvent

abbrev pub job_key : Job → ℕ
job_key j = j.id

abbrev pub rollout_key : Rollout → ℕ
rollout_key r = r.id

abbrev pub find_job : ℕ → Db → Option Job
find_job id db = find job_key id db.jobs

abbrev pub find_rollout : ℕ → Db → Option Rollout
find_rollout id db = find rollout_key id db.rollouts

unfoldable pub update_job : ℕ → (Job → Job) → Db → Db
update_job id change db = record db { jobs = update job_key id change db.jobs }

unfoldable pub update_rollout : ℕ → (Rollout → Rollout) → Db → Db
update_rollout id change db = record db { rollouts = update rollout_key id change db.rollouts }

-- `logJobEvent`.
unfoldable pub log_job_event : ℕ → Message → LogLevel → Option JobState → Db → Db
log_job_event id message level phase db = record db {
  events = record { job_id = id; message = message; level = level; phase = phase } ∷ db.events;
}

-- `bus.publish`.
unfoldable pub publish : BusEvent → Db → Db
publish event db = record db { bus = event ∷ db.bus }

-- `publishJob`.
abbrev pub publish_job : Job → Db → Db
publish_job j db = publish (job j.id j.rollout_id j.device_id) db
