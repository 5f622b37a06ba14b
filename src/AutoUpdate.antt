-- ===== src/AutoUpdate.antt =====
-- apps/hub/src/services/autoUpdate.ts: whether the newest approved version deserves a rollout. The
-- rows of the target and of the builds have the columns that only this decision reads. Caching the
-- artifact (apps/hub/src/services/artifacts.ts) is not done here: the decision says whether it is.
pub mod Newest
use magnemite.Prelude.{
  ℕ, ◌+◌, ◌*◌, ◌==◌, ltb, max, if◌then◌else◌, Bool, true, false, not, ◌&&◌, ◌||◌, Option, none,
  some, or_else, String, str_eq, List, [], ◌∷◌, ◌++◌, keep, any, sort,
}
use Prim.Native.String.{◌++◌ as join_text}
use magnemite.Fleet.{
  Fleet, Device, DevicePackage, AppTarget, AppVersion, VersionStatus, find_version,
}
use magnemite.Store.{RolloutMode, RolloutStatus, Rollout}
use magnemite.Jobs.{is_truthy}
use magnemite.Rollouts.{CreateRolloutInput, is_ready}
use magnemite.Versions.{is_positive, compare_versions}

pub record AutoTarget : Type 0 where
  pub app : AppTarget
  pub enabled : Bool
  pub auto_update_enabled : Bool
  pub update_cooldown_minutes : ℕ
  pub canary_count : ℕ
  pub soak_minutes : ℕ
  pub max_concurrency : Option ℕ

pub record Build : Type 0 where
  pub row : AppVersion
  pub approved : Bool
  pub source : String  -- in lower case

pub record Decision : Type 0 where
  pub latest : Build
  pub caches_first : Bool
  pub input : CreateRolloutInput

-- ACTIVE_ROLLOUT_STATUSES.includes(status).
abbrev pub is_open_status : RolloutStatus → Bool
is_open_status RolloutStatus.completed = false
is_open_status RolloutStatus.cancelled = false
is_open_status _ = true

abbrev is_target : ℕ → Option AppVersion → Bool
is_target k none = false
is_target k (some v) = v.app_target_id == k

-- `appVersion: { appTargetId }`.
unfoldable pub rollouts_of : Fleet → ℕ → List Rollout → List Rollout
rollouts_of fleet k rs = keep (λ r. is_target k (find_version r.app_version_id fleet)) rs

abbrev is_auto_mode : RolloutMode → Bool
is_auto_mode RolloutMode.auto = true
is_auto_mode RolloutMode.manual = false

abbrev later : Option ℕ → Option ℕ → Option ℕ
later none b = b
later (some a) none = some a
later (some a) (some b) = some (max a b)

-- When the last automatic rollout finished.
unfoldable pub last_auto : List Rollout → Option ℕ
last_auto [] = none
last_auto (r ∷ rs) =
    let rest = last_auto rs in if is_auto_mode r.mode then later r.finished_at rest else rest

unfoldable pub is_cooling : ℕ → ℕ → Option ℕ → Bool
is_cooling now minutes none = false
is_cooling now minutes (some finished) = ltb 0 minutes && ltb now (finished + minutes * 60000)

abbrev may_be_cached : VersionStatus → Bool
may_be_cached VersionStatus.failed = false
may_be_cached _ = true

abbrev pub is_eligible : ℕ → Build → Bool
is_eligible k b = b.row.app_target_id == k && b.approved && may_be_cached b.row.status

-- `(a, b) => compareVersions(b.version, a.version)`, `a` standing first unless it is older.
abbrev pub newer_first : Build → Build → Bool
newer_first a b = not (is_positive (compare_versions b.row.version a.row.version))

-- The packages of the target on approved boxes.
unfoldable pub installed : String → List Device → List DevicePackage
installed name [] = []
installed name (d ∷ ds) =
    let rest = installed name ds in
    if d.approved then keep (λ p. str_eq p.package_name name) d.packages ++ rest else rest

abbrev pub is_behind : Build → DevicePackage → Bool
is_behind latest p =
    not (is_truthy p.version_name)
    || is_positive (compare_versions latest.row.version (or_else p.version_name ""))

abbrev pub input_for : AutoTarget → Build → CreateRolloutInput
input_for t latest = record {
  app_version_id = latest.row.id;
  device_ids = [];
  mode = some RolloutMode.auto;
  force_clean = none;
  pre_install_hook = none;
  post_install_hook = none;
  hook_mode = none;
  write_config = none;
  canary_count = some t.canary_count;
  soak_minutes = some t.soak_minutes;
  max_concurrency = t.max_concurrency;
  max_attempts = some t.app.max_attempts;
  retry_backoff_seconds = some t.app.retry_backoff_seconds;
  skip_up_to_date = some true;
  created_by_id = none;
  note = some (
      join_text "auto-update to "
        (join_text latest.row.version (join_text " (" (join_text latest.source ")"))));
}

abbrev decide_for : AutoTarget → List DevicePackage → Build → Option Decision
decide_for t packages latest =
    if any (is_behind latest) packages
    then some (record {
      latest = latest;
      caches_first = not (is_ready latest.row.status);
      input = input_for t latest;
    })
    else none

unfoldable pub run_auto_update :
    ℕ → Fleet → List Rollout → List Build → AutoTarget → Option Decision
unfolding rollouts_of last_auto is_cooling installed
run_auto_update now fleet rollouts builds t =
    let own = rollouts_of fleet t.app.id rollouts in
    let packages = installed t.app.package_name fleet.devices in
    if not (t.enabled && t.auto_update_enabled)
      || any (λ r. is_open_status r.status) own
      || is_cooling now t.update_cooldown_minutes (last_auto own)
    then none
    else elim (sort newer_first (keep (is_eligible t.app.id) builds)) [
      | [] ↦ none
      | latest ∷ _ ↦ decide_for t packages latest
    ]
