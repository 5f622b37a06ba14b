-- ===== src/Monitor/Rules.antt =====
-- monitor.ts: which rules apply to a box (loadEnabledRules, rulesFor), and what it is told to watch
-- (probeOf, specFor).
pub mod Choice
use magnemite.Prelude.{
  ℕ, ◌==◌, leb, if◌then◌else◌, Bool, true, false, not, ◌&&◌, ◌||◌, Option, none, some, or_else,
  String, str_eq, List, [], ◌∷◌, ◌++◌, keep, map, any, sort, is_some,
}
use magnemite.Jobs.{is_truthy}
use magnemite.Monitor.{
  MonitorSignal, agent_offline, service_down, app_not_foreground, app_anr, health_check_failed,
  loop_stalled, rotom_disconnected, rotom_not_scanning, rotom_idle, RawProbe, MonitorRule,
  MonitorStep, MonitorSettings,
}

pub record RuleProbe : Type 0 where
  pub kind : String
  pub target : String
  pub expect : Option String
  pub lines : ℕ
  pub fail_at : ℕ
  pub success_pattern : Option String
  pub max_ratio : Option ℕ
  pub max_age_seconds : Option ℕ
  pub timeout_seconds : ℕ

abbrev is_kind : String → Bool
is_kind k = str_eq k "shell" || str_eq k "http" || str_eq k "logMatch"

abbrev read_probe : RawProbe → Option RuleProbe
read_probe p =
    if is_truthy p.target && is_kind (or_else p.kind "")
    then some (record {
      kind = or_else p.kind "";
      target = or_else p.target "";
      expect = p.expect;
      lines = or_else p.lines 200;
      fail_at = or_else p.fail_at 1;
      success_pattern = p.success_pattern;
      max_ratio = p.max_ratio;
      max_age_seconds = p.max_age_seconds;
      timeout_seconds = or_else p.timeout_seconds 10;
    })
    else none

unfoldable pub probe_of : MonitorRule → Option RuleProbe
probe_of rule = elim rule.config [ none ↦ none | some p ↦ read_probe p ]

abbrev pub by_failure : MonitorStep → MonitorStep → Bool
by_failure a b = leb a.at_failure b.at_failure

abbrev pub by_position : MonitorRule → MonitorRule → Bool
by_position a b = leb a.position b.position

abbrev pub with_sorted_steps : MonitorRule → MonitorRule
with_sorted_steps r = record r { steps = sort by_failure r.steps }

unfoldable pub load_enabled_rules : MonitorSettings → List MonitorRule → List MonitorRule
unfolding sort
load_enabled_rules settings rules =
    if settings.enabled
    then map with_sorted_steps (sort by_position (keep (λ r. r.enabled) rules))
    else []

abbrev signal_code : MonitorSignal → ℕ
signal_code agent_offline = 0
signal_code service_down = 1
signal_code app_not_foreground = 2
signal_code app_anr = 3
signal_code health_check_failed = 4
signal_code loop_stalled = 5
signal_code rotom_disconnected = 6
signal_code rotom_not_scanning = 7
signal_code rotom_idle = 8

abbrev pub same_signal : MonitorSignal → MonitorSignal → Bool
same_signal a b = signal_code a == signal_code b

-- The keys `${signal}:${packageName ?? ""}` of two rules; no signal has a colon in its name.
unfoldable pub same_key : MonitorRule → MonitorRule → Bool
same_key a b =
    same_signal a.signal b.signal && str_eq (or_else a.package_name "") (or_else b.package_name "")

abbrev same_group : Option ℕ → ℕ → Bool
same_group none g = false
same_group (some h) g = h == g

abbrev in_scope : (rule_group group : Option ℕ) → Bool
in_scope none group = true
in_scope (some g) group = same_group group g

abbrev pub is_scoped : MonitorRule → Bool
is_scoped rule = is_some rule.group_id

-- The rule is fleet-wide, or the group's.
unfoldable pub applies : Option ℕ → MonitorRule → Bool
applies group rule = in_scope rule.group_id group

-- `chosen.set(key, rule)`, unless what the Map has under the key is to stay.
unfoldable pub put_rule : MonitorRule → List MonitorRule → List MonitorRule
put_rule rule [] = rule ∷ []
put_rule rule (winner ∷ others) =
    let further = winner ∷ put_rule rule others in
    if same_key winner rule
    then (if not (is_scoped winner) && is_scoped rule then rule ∷ others else winner ∷ others)
    else further

unfoldable pub choose_rules : Option ℕ → (chosen rules : List MonitorRule) → List MonitorRule
choose_rules group chosen [] = chosen
choose_rules group chosen (rule ∷ rules) =
    choose_rules group (if applies group rule then put_rule rule chosen else chosen) rules

unfoldable pub rules_for : List MonitorRule → Option ℕ → List MonitorRule
unfolding choose_rules
rules_for rules group = choose_rules group [] rules

pub record MonitorSpec : Type 0 where
  pub foreground : Bool
  pub anr : Bool
  pub checks : List (ℕ × RuleProbe)

unfoldable pub checks_of : List MonitorRule → List (ℕ × RuleProbe)
unfolding probe_of
checks_of [] = []
checks_of (rule ∷ rules) =
    elim (probe_of rule) [ none ↦ [] | some p ↦ (rule.id, p) ∷ [] ] ++ checks_of rules

abbrev watched_by : List MonitorRule → MonitorSpec
watched_by rules = record {
  foreground = any (λ r. same_signal r.signal app_not_foreground) rules;
  anr = any (λ r. same_signal r.signal app_anr) rules;
  checks = checks_of rules;
}

abbrev is_empty_list {ℓ} : {A : Type ℓ} → List A → Bool
is_empty_list [] = true
is_empty_list (x ∷ xs) = false

unfoldable pub spec_for : List MonitorRule → Option ℕ → Option MonitorSpec
unfolding rules_for checks_of
spec_for rules group =
    let applicable = rules_for rules group in
    let spec = watched_by applicable in
    if is_empty_list applicable || not spec.foreground && not spec.anr && is_empty_list spec.checks
    then none
    else some spec
