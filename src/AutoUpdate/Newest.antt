-- ===== src/AutoUpdate/Newest.antt =====
-- What runAutoUpdate rolls out is the newest eligible build, and an update for some box.
use magnemite.Prelude.{ℕ, ◌≡◌, true, false, ◌&&◌, List, All, any, keep}
use magnemite.Fleet.{Fleet}
use magnemite.Store.{Rollout}
use magnemite.AutoUpdate.{
  AutoTarget, Build, Decision, is_open_status, rollouts_of, last_auto, is_cooling, is_eligible,
  newer_first, installed, is_behind,
}

-- What the decision to roll a build out says.
pub record IsDue (now : ℕ) (fleet : Fleet) (rollouts : List Rollout) (builds : List Build)
    (t : AutoTarget) (d : Decision) : Type 0 where
  pub enabled : (t.enabled && t.auto_update_enabled) ≡ true
  pub none_open : any (λ r. is_open_status r.status) (rollouts_of fleet t.app.id rollouts) ≡ false
  pub cooled :
      is_cooling now t.update_cooldown_minutes (last_auto (rollouts_of fleet t.app.id rollouts))
      ≡ false
  pub newest : All (λ b. newer_first d.latest b ≡ true) (keep (is_eligible t.app.id) builds)
  pub behind : any (is_behind d.latest) (installed t.app.package_name fleet.devices) ≡ true
