-- ===== src/Install.antt =====
-- The message that `dispatchQueued` of apps/hub/src/services/scheduler.ts sends to a box, and what
-- a tick sees of the world: the clock, the sockets (registry.ts), the address of an artifact and the
-- rendered config of a box (deviceConfig.ts).
use magnemite.Prelude.{
  ℕ, if◌then◌else◌, Bool, false, ◌&&◌, ◌||◌, Option, none, some, or_maybe, String, str_eq, List, [],
  ◌∷◌,
}
use magnemite.Fleet.{Device}
use magnemite.Store.{HookMode, warn, config_not_sent, agent_too_old, Db, log_job_event}
use magnemite.Queue.{Candidate, ◌>>=◌}

pub record ConfigFile : Type 0 where
  pub path : String
  pub content : String
  pub mode : String

-- `RenderOutcome`: null, a file, or the reason why there is none.
pub data RenderOutcome : Type 0 where
  silent : RenderOutcome
  rendered : ConfigFile → RenderOutcome
  refused : (reason : String) → RenderOutcome

pub record InstallJob : Type 0 where
  pub job_id : ℕ
  pub package_name : String
  pub url : String
  pub sha256 : String
  pub size_bytes : ℕ
  pub version : String
  pub force_clean : Bool
  pub pre_install_hook : Option String
  pub post_install_hook : Option String
  pub extra_splits : List String
  pub config : Option ConfigFile
  pub timeout_seconds : ℕ

pub record World : Type 0 where
  pub now : ℕ
  pub minutes : ℕ  -- of the local day
  pub is_online : ℕ → Bool
  pub send_to : ℕ → InstallJob → Bool
  pub artifact_url : String → String
  pub render_config : Device → RenderOutcome

-- Which of the resolved hooks survive the rollout's hook mode.
abbrev pre_hook : HookMode → Option String → Option String → Option String
pre_hook HookMode.normal own groups = or_maybe own groups
pre_hook HookMode.post_only own groups = none
pre_hook HookMode.none own groups = none

abbrev post_hook : HookMode → Option String → Option String → Option String
post_hook HookMode.none own groups = none
post_hook HookMode.normal own groups = or_maybe own groups
post_hook HookMode.post_only own groups = or_maybe own groups

unfoldable pub has_write_config : List String → Bool
has_write_config [] = false
has_write_config (x ∷ xs) = str_eq x "write_config" || has_write_config xs

abbrev takes_config : Candidate → Bool
takes_config c = c.rollout.write_config && (elim (c.group >>= λ g. g.mitm_package_name) [
  | none ↦ false
  | some p ↦ str_eq p c.target.package_name
])

-- The config that rides along, and the warnings about one that does not.
unfoldable pub attach_config : World → Candidate → Db → Option ConfigFile × Db
attach_config w c db =
    if takes_config c
    then elim (w.render_config c.device) [
      | silent ↦ (none, db)
      | refused reason ↦ (none, log_job_event c.job.id (config_not_sent reason) warn none db)
      | rendered file ↦
          if has_write_config c.device.capabilities
          then (some file, db)
          else (none, log_job_event c.job.id agent_too_old warn none db)
    ]
    else (none, db)

unfoldable pub install_job : World → Candidate → String → String → Option ConfigFile → InstallJob
install_job w c path sha256 config = record {
  job_id = c.job.id;
  package_name = c.target.package_name;
  url = w.artifact_url path;
  sha256 = sha256;
  size_bytes = c.version.size_bytes;
  version = c.version.version;
  force_clean = c.rollout.force_clean;
  pre_install_hook =
      pre_hook c.rollout.hook_mode c.rollout.pre_install_hook (c.group >>= λ g. g.pre_install_hook);
  post_install_hook =
      post_hook c.rollout.hook_mode c.rollout.post_install_hook
        (c.group >>= λ g. g.post_install_hook);
  extra_splits = [];
  config = config;
  timeout_seconds = 3600;
}
