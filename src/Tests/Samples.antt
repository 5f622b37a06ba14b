-- ===== src/Tests/Samples.antt =====
-- A small fleet and a rollout in its canary phase, for the tests.
use magnemite.Prelude.{
  arith, refl, IsKeyed, find, ℕ, Bool, true, false, none, some, String, [], ◌∷◌, str_eq,
}
use magnemite.Fleet.{Fleet, Device, DeviceGroup, AppTarget, AppVersion, VersionStatus}
use magnemite.Store.{Job, Rollout, Db, JobState, RolloutStatus, RolloutMode, HookMode, RolloutMode}
use magnemite.Store.Laws.{IsSound}
use magnemite.Store.{job_key}
use magnemite.Jobs.{JobOutcome}
use magnemite.Install.{World, silent}
use magnemite.Rollouts.{Surroundings, CreateRolloutInput}

abbrev pub atlas : AppTarget
atlas = record {
  id = 1;
  package_name = "com.example.atlas";
  window_start = some "22:00";
  window_end = some "06:00";
  max_attempts = 3;
  retry_backoff_seconds = 60;
}

abbrev pub atlas_two : AppVersion
atlas_two = record {
  id = 1;
  app_target_id = 1;
  version = "2.0";
  status = VersionStatus.ready;
  artifact_path = some "/data/atlas-2.0.apk";
  sha256 = some "ab12";
  size_bytes = 1000;
}

abbrev box : ℕ → String → String → Device
box k name version = record {
  id = k;
  name = name;
  approved = true;
  group_id = some 1;
  capabilities = "write_config" ∷ [];
  packages = record { package_name = "com.example.atlas"; version_name = some version } ∷ [];
}

abbrev pub farm : DeviceGroup
farm = record {
  id = 1;
  max_concurrency = some 2;
  pre_install_hook = none;
  post_install_hook = some "reboot";
  mitm_package_name = none;
}

abbrev pub fleet : Fleet
fleet = record {
  devices = box 1 "north" "1.0" ∷ box 2 "south" "1.0" ∷ box 3 "west" "2.0" ∷ [];
  groups = farm ∷ [];
  targets = atlas ∷ [];
  versions = atlas_two ∷ [];
}

abbrev pub canary_rollout : Rollout
canary_rollout = record {
  id = 1;
  app_version_id = 1;
  mode = RolloutMode.manual;
  status = RolloutStatus.canary;
  force_clean = false;
  canary_count = 1;
  soak_minutes = 5;
  max_concurrency = some 1;
  max_attempts = 3;
  retry_backoff_seconds = 60;
  pre_install_hook = none;
  post_install_hook = none;
  hook_mode = HookMode.normal;
  write_config = true;
  note = none;
  created_by_id = none;
  canary_passed_at = none;
  started_at = some 1000;
  finished_at = none;
}

abbrev pub ended_rollout : Rollout
ended_rollout = record canary_rollout {
  id = 2;
  status = RolloutStatus.completed;
  finished_at = some 2000;
}

abbrev pub job : ℕ → ℕ → JobState → ℕ → Bool → Job
job k rollout_id state attempt is_canary = record {
  id = k;
  rollout_id = rollout_id;
  device_id = k;
  state = state;
  progress = 0;
  is_canary = is_canary;
  attempt = attempt;
  last_error = none;
  install_mode = none;
  data_wiped = false;
  from_version = some "1.0";
  to_version = "2.0";
  queued_at = 1000;
  next_attempt_at = none;
  dispatched_at = none;
  started_at = none;
  heartbeat_at = none;
  finished_at = none;
}

-- Installing since long ago, on its last attempt.
abbrev pub last_try : Job
last_try = record (job 2 1 JobState.installing 3 false) {
  dispatched_at = some 1000;
  heartbeat_at = some 1000;
}

abbrev pub given_up : Job
given_up = record (job 3 2 JobState.failed 3 false) { finished_at = some 2000 }

abbrev pub db : Db
db = record {
  jobs = job 1 1 JobState.queued 0 true ∷ last_try ∷ given_up ∷ [];
  rollouts = canary_rollout ∷ ended_rollout ∷ [];
  events = [];
  bus = [];
}

abbrev pub now : ℕ
now = 9000000

abbrev pub world : World
world = record {
  now = now;
  minutes = 1380;
  is_online = λ k. true;
  send_to = λ k m. true;
  artifact_url = λ path. path;
  render_config = λ d. silent;
}

abbrev pub failure_report : JobOutcome
failure_report = record {
  ok = false;
  install_mode = none;
  data_wiped = none;
  installed_version = none;
  error_text = some "no space left";
}

abbrev pub surroundings : Surroundings
surroundings = record {
  now = now;
  rollout_key = 7;
  first_job_key = 10;
  is_online = λ k. true;
  row_order = λ a b. str_eq a b;
  locale_before = λ a b. str_eq a b;
}

abbrev pub input : CreateRolloutInput
input = record {
  app_version_id = 1;
  device_ids = [];
  mode = none;
  force_clean = none;
  pre_install_hook = none;
  post_install_hook = none;
  hook_mode = none;
  write_config = none;
  canary_count = some 1;
  soak_minutes = some 5;
  max_concurrency = none;
  max_attempts = none;
  retry_backoff_seconds = none;
  skip_up_to_date = none;
  created_by_id = none;
  note = none;
}

pub db-IsKeyed : IsKeyed job_key db.jobs
unfolding find
db-IsKeyed = (refl, (refl, (refl, tt)))

pub db-IsSound : IsSound db
unfolding find
db-IsSound = record {
  keyed = db-IsKeyed;
  sound = (ground arith, (ground arith, (ground arith, tt)));
}
