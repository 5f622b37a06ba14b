-- ===== src/Rollouts.antt =====
-- apps/hub/src/services/rollouts.ts: making, cancelling and resuming a rollout. The database gives
-- new rows their keys, which are arguments here, and an order of names to `orderBy`; the runtime
-- gives one to `localeCompare`, and the registry says which device is online.
pub mod Creation
pub mod Canaries
pub mod Plan
pub mod Cancelling
pub mod Invariant
use magnemite.Prelude.{
  ℕ, suc, ◌==◌, ltb, if◌then◌else◌, Bool, true, false, not, ◌&&◌, ◌||◌, Option, none, some, or_else,
  String, str_eq, List, [], ◌∷◌, ◌++◌, any, keep, length, take, map, sort, trim,
}
use magnemite.Fleet.{Device, AppVersion, AppTarget, Fleet, VersionStatus, find_version, find_target}
use magnemite.Store.{
  JobState, queued, skipped, RolloutStatus, canary, running, paused, soaking, RolloutMode, HookMode,
  info, is_terminal, same_status, Job, Rollout, already_on, BusEvent, Db, find_rollout,
  update_rollout, log_job_event, publish,
}
use magnemite.Jobs.{is_truthy}
use magnemite.Rollup.{recompute_rollout, jobs_of}

pub record CreateRolloutInput : Type 0 where
  pub app_version_id : ℕ
  pub device_ids : List ℕ
  pub mode : Option RolloutMode
  pub force_clean : Option Bool
  pub pre_install_hook : Option String
  pub post_install_hook : Option String
  pub hook_mode : Option HookMode
  pub write_config : Option Bool
  pub canary_count : Option ℕ
  pub soak_minutes : Option ℕ
  pub max_concurrency : Option ℕ
  pub max_attempts : Option ℕ
  pub retry_backoff_seconds : Option ℕ
  pub skip_up_to_date : Option Bool
  pub created_by_id : Option ℕ
  pub note : Option String

pub data RolloutError : Type 0 where
  version_not_found : RolloutError
  not_cached : (version : String) → VersionStatus → RolloutError
  no_devices : RolloutError
  rollout_not_found : RolloutError
  nothing_to_resume : RolloutStatus → RolloutError

-- What a call comes to: a value, or the error that it throws.
pub data Result {ℓ} (A : Type ℓ) : Type ℓ where
  thrown : RolloutError → Result A
  returned : A → Result A

infixl 5 ◌>>=◌ ◌>>◌
abbrev pub ◌>>=◌ {ℓ κ} : {A : Type ℓ} {B : Type κ} → Result A → (A → Result B) → Result B
thrown e >>= next = thrown e
returned a >>= next = next a

abbrev pub ◌>>◌ {ℓ κ} : {A : Type ℓ} {B : Type κ} → Result A → Result B → Result B
thrown e >> next = thrown e
returned a >> next = next

-- `if (!b) throw e`.
abbrev pub require : Bool → RolloutError → Result (Unit {0})
require b e = if b then returned tt else thrown e

abbrev pub or_fail {ℓ} : {A : Type ℓ} → Option A → RolloutError → Result A
or_fail none e = thrown e
or_fail (some a) e = returned a

abbrev pub is_ready : VersionStatus → Bool
is_ready VersionStatus.ready = true
is_ready _ = false

-- What is outside of these rows when a rollout is made.
pub record Surroundings : Type 0 where
  pub now : ℕ
  pub rollout_key : ℕ
  pub first_job_key : ℕ
  pub is_online : ℕ → Bool
  pub row_order : String → String → Bool
  pub locale_before : String → String → Bool

-- `device.packages[0]?.versionName ?? null`, of the packages with the target's name.
unfoldable pub current_version : AppTarget → Device → Option String
current_version target d = elim (keep (λ p. str_eq p.package_name target.package_name) d.packages) [
  | [] ↦ none
  | p ∷ _ ↦ p.version_name
]

abbrev is_version : Option String → String → Bool
is_version none v = false
is_version (some u) v = str_eq u v

unfoldable pub is_up_to_date : (skip : Bool) → AppTarget → AppVersion → Device → Bool
unfolding current_version
is_up_to_date skip target version d = skip && is_version (current_version target d) version.version

-- Online devices first, then by name.
abbrev pub canary_order : Surroundings → Device → Device → Bool
canary_order w a b =
    w.is_online a.id && not (w.is_online b.id)
    || not (not (w.is_online a.id) && w.is_online b.id) && w.locale_before a.name b.name

-- `canaryIds`.
unfoldable pub pick_canaries :
    Surroundings → (skip : Bool) → AppTarget → AppVersion → ℕ → List Device → List ℕ
unfolding is_up_to_date
pick_canaries w skip target version count devices =
    let eligible = keep (λ d. not (is_up_to_date skip target version d)) devices in
    map (λ d. d.id) (take count (sort (canary_order w) eligible))

unfoldable pub is_among : ℕ → List ℕ → Bool
is_among k ids = any (λ i. i == k) ids

unfoldable pub new_job :
    Surroundings
    → (job_key : ℕ) → (canaries : List ℕ) → (skip : Bool) → AppTarget
    → AppVersion
    → Device
    → Job
unfolding is_up_to_date is_among
new_job w job_key canaries skip target version d =
    let up_to_date = is_up_to_date skip target version d in
    record {
      id = job_key;
      rollout_id = w.rollout_key;
      device_id = d.id;
      state = if up_to_date then skipped else queued;
      progress = 0;
      is_canary = is_among d.id canaries;
      attempt = 0;
      last_error = none;
      install_mode = none;
      data_wiped = false;
      from_version = current_version target d;
      to_version = version.version;
      queued_at = w.now;
      next_attempt_at = none;
      dispatched_at = none;
      started_at = none;
      heartbeat_at = none;
      finished_at = if up_to_date then some w.now else none;
    }

unfoldable pub new_jobs :
    Surroundings
    → (job_key : ℕ) → (canaries : List ℕ) → (skip : Bool) → AppTarget
    → AppVersion
    → List Device
    → List Job
unfolding new_job
new_jobs w k canaries skip target version [] = []
new_jobs w k canaries skip target version (d ∷ ds) =
    new_job w k canaries skip target version d ∷ new_jobs w (suc k) canaries skip target version ds

-- `hook?.trim() || null`.
abbrev trimmed : Option String → Option String
trimmed none = none
trimmed (some s) = let t = trim s in if str_eq t "" then none else some t

unfoldable pub new_rollout :
    Surroundings → CreateRolloutInput → AppTarget → AppVersion → (canaries : List ℕ) → Rollout
new_rollout w input target version canaries = record {
  id = w.rollout_key;
  app_version_id = version.id;
  mode = or_else input.mode RolloutMode.manual;
  status = if ltb 0 (length canaries) then canary else running;
  force_clean = or_else input.force_clean false;
  canary_count = length canaries;
  soak_minutes = or_else input.soak_minutes 0;
  max_concurrency = input.max_concurrency;
  max_attempts = or_else input.max_attempts target.max_attempts;
  retry_backoff_seconds = or_else input.retry_backoff_seconds target.retry_backoff_seconds;
  pre_install_hook = trimmed input.pre_install_hook;
  post_install_hook = trimmed input.post_install_hook;
  hook_mode = or_else input.hook_mode HookMode.normal;
  write_config = or_else input.write_config true;
  note = input.note;
  created_by_id = input.created_by_id;
  canary_passed_at = none;
  started_at = some w.now;
  finished_at = none;
}

abbrev is_skipped : JobState → Bool
is_skipped skipped = true
is_skipped _ = false

log_skipped : String → List Job → Db → Db
log_skipped version [] db = db
log_skipped version (j ∷ js) db = log_skipped version js (
    if is_skipped j.state
    then log_job_event j.id (already_on version) info (some skipped) db
    else db)

-- The devices of the selection, or all of them where it is empty; approved ones only.
unfoldable pub select_devices : Surroundings → List ℕ → Fleet → List Device
unfolding is_among
select_devices w device_ids fleet =
    sort (λ a b. w.row_order a.name b.name)
      (keep (λ d. d.approved && (not (ltb 0 (length device_ids)) || is_among d.id device_ids))
        fleet.devices)

unfoldable pub insert_rollout : Rollout → List Job → Db → Db
insert_rollout r js db = record db { rollouts = db.rollouts ++ r ∷ []; jobs = db.jobs ++ js }

-- What is written once the version and the devices are known.
unfoldable pub make_rollout :
    Surroundings
    → CreateRolloutInput
    → AppTarget
    → AppVersion
    → List Device
    → Db
    → Db × Rollout × List Job
unfolding log_skipped pick_canaries new_jobs new_rollout insert_rollout
make_rollout w input target version devices db =
    let skip = or_else input.skip_up_to_date true in
    let canaries = pick_canaries w skip target version (or_else input.canary_count 0) devices in
    let r = new_rollout w input target version canaries in
    let js = new_jobs w w.first_job_key canaries skip target version devices in
    let logged = log_skipped version.version js (insert_rollout r js db) in
    (recompute_rollout w.now r.id (publish (BusEvent.rollout r.id) logged), r, js)

unfoldable pub create_rollout :
    Surroundings → CreateRolloutInput → Fleet → Db → Result (Db × Rollout × List Job)
create_rollout w input fleet db = do
  version ← or_fail (find_version input.app_version_id fleet) version_not_found
  target ← or_fail (find_target version.app_target_id fleet) version_not_found
  require (is_ready version.status && is_truthy version.artifact_path && is_truthy version.sha256)
      (not_cached version.version version.status)
  let devices = select_devices w input.device_ids fleet
  require (ltb 0 (length devices)) no_devices
  returned (make_rollout w input target version devices db)

-- `updateMany` of the jobs of a rollout that have not ended.
unfoldable pub cancel_open_jobs : ℕ → ℕ → List Job → List Job
cancel_open_jobs now rollout_id [] = []
cancel_open_jobs now rollout_id (j ∷ js) =
    (if j.rollout_id == rollout_id && not (is_terminal j.state)
      then record j { state = JobState.cancelled; finished_at = some now }
      else j)
    ∷ cancel_open_jobs now rollout_id js

abbrev pub set_rollout_cancelled : ℕ → Rollout → Rollout
set_rollout_cancelled now row = record row {
  status = RolloutStatus.cancelled;
  finished_at = some now;
}

unfoldable pub cancel_rollout : ℕ → ℕ → Db → Db × ℕ
unfolding cancel_open_jobs
cancel_rollout now rollout_id db =
    let jobs = keep (λ j. not (is_terminal j.state)) (jobs_of rollout_id db) in
    (
      publish (BusEvent.rollout rollout_id) (
          update_rollout rollout_id (set_rollout_cancelled now)
            (record db { jobs = cancel_open_jobs now rollout_id db.jobs })),
      length jobs,
    )

abbrev pub set_resumed : ℕ → Rollout → Rollout → Rollout
set_resumed now seen row = record row {
  status = running;
  canary_passed_at = some (or_else seen.canary_passed_at now);
}

unfoldable pub resume_rollout : ℕ → ℕ → Db → Result Db
resume_rollout now rollout_id db = do
  r ← or_fail (find_rollout rollout_id db) rollout_not_found
  require (same_status r.status paused || same_status r.status soaking) (nothing_to_resume r.status)
  returned
      (publish (BusEvent.rollout rollout_id) (update_rollout rollout_id (set_resumed now r) db))
