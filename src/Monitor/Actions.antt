-- ===== src/Monitor/Actions.antt =====
-- monitor.ts: runAction and the circuit breakers; apps/hub/src/services/deviceCommands.ts: a command
-- that a box answers. What boxes, Rotom and the notifier answer is a parameter, `Outside`.
use magnemite.Prelude.{
  ℕ, zero, suc, ◌==◌, leb, if◌then◌else◌, Bool, true, false, not, ◌&&◌, ◌||◌, Option, none, some,
  or_else, or_maybe, String, str_eq, List, [], ◌∷◌, ◌++◌, take, chars, of_chars, trim,
}
use Prim.Native.Char.{Char, code}
use magnemite.Jobs.{is_truthy}
use magnemite.Monitor.{
  MonitorAction, notify_only, restart_app, kill_app, clear_cache_restart, send_keyevent,
  start_service, shell, reboot, rotom_restart, rotom_disconnect, rotom_reboot, MonitorLevel,
  MonitorRule, DeviceRow, MonitorSettings, Detail, actions_spent, reboots_spent, reboot_not_taken,
  not_matched_in_rotom, rotom_refused, no_command, command_said, Request, reboot_box, ask_rotom,
  run_script, is_hard,
}

pub record ExecOutcome : Type 0 where
  pub ok : Bool
  pub output : String
  pub error : Option String

pub record EventInput : Type 0 where
  pub level : MonitorLevel
  pub message : String
  pub action : Option MonitorAction
  pub action_ok : Option Bool
  pub detail : List Detail
  pub recovery : Bool

-- What is not the monitor's: who has a socket and takes a message, what a box answers to a script
-- (`none`: nothing in time), what Rotom does, whether a notice lands, and the minute of the local day.
pub record Outside : Type 0 where
  pub rotom_is_on : Bool
  pub is_online : ℕ → Bool
  pub takes_message : ℕ → Bool
  pub answer : ℕ → String → Option ExecOutcome
  pub rotom_does : String → MonitorAction → Bool
  pub notice_lands : DeviceRow → MonitorRule → EventInput → Bool
  pub local_minutes : ℕ → ℕ

abbrev failed_with : String → ExecOutcome
failed_with text = record { ok = false; output = ""; error = some text }

-- `execOnDevice`, its errors caught.
unfoldable pub exec_on_device : Outside → ℕ → String → ExecOutcome
exec_on_device o d script =
    if not (o.is_online d) || not (o.takes_message d)
    then failed_with "device is offline"
    else or_else (o.answer d script)
        (failed_with "the box did not answer — it may have gone offline mid-command")

-- ACTION_COMMANDS.
abbrev pub default_command : MonitorAction → Option String
default_command restart_app =
    some "am force-stop {pkg}; sleep 2; monkey -p {pkg} -c android.intent.category.LAUNCHER 1"
default_command kill_app = some "am force-stop {pkg}"
default_command clear_cache_restart =
    some
      "am force-stop {pkg}; rm -rf /data/data/{pkg}/cache; sleep 2; monkey -p {pkg} -c android.intent.category.LAUNCHER 1"
default_command send_keyevent = some "input keyevent 66"
default_command start_service = some "am startservice {pkg}"
default_command shell = some ""
default_command _ = none

abbrev begins_with : List Char → List Char → Bool
begins_with [] cs = true
begins_with (a ∷ as') [] = false
begins_with (a ∷ as') (c ∷ cs) = code a == code c && begins_with as' cs

-- `replaceAll("{pkg}", pkg)`; `skip` characters belong to the last match.
unfoldable pub replace_pkg : List Char → (skip : ℕ) → List Char → List Char
replace_pkg pkg skip [] = []
replace_pkg pkg (suc skip) (c ∷ cs) = replace_pkg pkg skip cs
replace_pkg pkg zero (c ∷ cs) =
    let replaced = pkg ++ replace_pkg pkg 4 cs in
    let plain = c ∷ replace_pkg pkg 0 cs in
    if begins_with (chars "{pkg}") (c ∷ cs) then replaced else plain

unfoldable pub substitute_pkg : String → Option String → String
unfolding replace_pkg
substitute_pkg command package_name =
    of_chars (replace_pkg (chars (or_else package_name "")) 0 (chars command))

pub record ActionOutcome : Type 0 where
  pub ok : Bool
  pub detail : Option Detail
  pub request : Option Request

abbrev via_rotom : Outside → DeviceRow → MonitorAction → ActionOutcome
via_rotom o d verb =
    let r = or_else d.rotom_device_id "" in
    let done = o.rotom_does r verb in
    if is_truthy d.rotom_device_id
    then record {
      ok = done;
      detail = if done then none else some rotom_refused;
      request = some (ask_rotom r verb);
    }
    else record { ok = false; detail = some not_matched_in_rotom; request = none }

abbrev first_chars : ℕ → String → String
first_chars n s = of_chars (take n (chars s))

abbrev by_script : Outside → DeviceRow → String → ActionOutcome
by_script o d script =
    if str_eq (trim script) ""
    then record { ok = false; detail = some no_command; request = none }
    else (let outcome = exec_on_device o d.id script in
        record {
          ok = outcome.ok;
          detail =
              if outcome.ok
              then none
              else some (command_said (or_else outcome.error (first_chars 400 outcome.output)));
          request = some (run_script script);
        })

abbrev scripted : Outside → DeviceRow → MonitorRule → MonitorAction → Option String → ActionOutcome
scripted o d rule action command =
    by_script o d
      (substitute_pkg (or_else (or_maybe command (default_command action)) "") rule.package_name)

unfoldable pub run_action :
    Outside → DeviceRow → MonitorRule → MonitorAction → Option String → ActionOutcome
unfolding exec_on_device substitute_pkg
run_action o d rule notify_only command = record { ok = true; detail = none; request = none }
run_action o d rule reboot command =
    let sent = o.takes_message d.id in
    record {
      ok = sent;
      detail = if sent then none else some reboot_not_taken;
      request = some reboot_box;
    }
run_action o d rule rotom_restart command = via_rotom o d rotom_restart
run_action o d rule rotom_disconnect command = via_rotom o d rotom_disconnect
run_action o d rule rotom_reboot command = via_rotom o d rotom_reboot
run_action o d rule restart_app command = scripted o d rule restart_app command
run_action o d rule kill_app command = scripted o d rule kill_app command
run_action o d rule clear_cache_restart command = scripted o d rule clear_cache_restart command
run_action o d rule send_keyevent command = scripted o d rule send_keyevent command
run_action o d rule start_service command = scripted o d rule start_service command
run_action o d rule shell command = scripted o d rule shell command

-- What each box has had spent on it; a Map is a function, with 0 where it has nothing.
pub record Budgets : Type 0 where
  pub actions : ℕ → ℕ
  pub reboots : ℕ → ℕ

abbrev pub one_more : ℕ → (ℕ → ℕ) → ℕ → ℕ
one_more d spent e = if e == d then suc (spent e) else spent e

unfoldable pub spend : ℕ → MonitorAction → Budgets → Budgets
spend d action b = record {
  actions = one_more d b.actions;
  reboots = if is_hard action then one_more d b.reboots else b.reboots;
}

unfoldable pub tripped : DeviceRow → MonitorAction → MonitorSettings → Budgets → Option Detail
tripped d action settings b =
    let actions = b.actions d.id in
    let reboots = b.reboots d.id in
    if leb settings.max_actions_per_device_hour actions
    then some (actions_spent actions settings.max_actions_per_device_hour)
    else (if is_hard action && leb settings.max_reboots_per_device_day reboots
        then some (reboots_spent reboots settings.max_reboots_per_device_day)
        else none)
