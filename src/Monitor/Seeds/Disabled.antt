-- ===== src/Monitor/Seeds/Disabled.antt =====
-- What seeding the rules of the monitoring leaves to be evaluated.
use magnemite.Prelude.{ℕ, ◌≡◌, refl, List, [], ◌∷◌, sort}
use magnemite.Monitor.{MonitorRule, MonitorSettings}
use magnemite.Monitor.Rules.{load_enabled_rules}
use magnemite.Monitor.Seeds.{seed_default_monitor_rules, rules_from}

-- Seeding the default rules leaves the rules that a pass evaluates as they were, whatever the
-- table and the settings, and seeding once more adds nothing.
pub load_enabled_rules-seed :
    (key : ℕ → ℕ) (settings : MonitorSettings) (rules : List MonitorRule)
    → let seeded = (seed_default_monitor_rules key rules).0 in
      (load_enabled_rules settings seeded ≡ load_enabled_rules settings rules)
      × (seed_default_monitor_rules key seeded ≡ (seeded, 0))
unfolding load_enabled_rules seed_default_monitor_rules rules_from sort
load_enabled_rules-seed key settings [] = (refl, refl)
load_enabled_rules-seed key settings (r ∷ rs) = (refl, refl)
