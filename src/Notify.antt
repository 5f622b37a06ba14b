-- ===== src/Notify.antt =====
-- apps/hub/src/services/notify.ts: whether an alert of the monitor goes out. What Discord answers to
-- the first and to the second attempt is a parameter; the text of the message is not modelled.
pub mod Spacing
use magnemite.Prelude.{
  ℕ, ◌-◌, ◌*◌, ◌==◌, leb, ltb, if◌then◌else◌, Bool, true, false, not, ◌&&◌, List, any,
}
use magnemite.Monitor.{MonitorSignal, MonitorLevel, info, warn, critical, MonitorEvent}
use magnemite.Monitor.Rules.{same_signal}

pub record NotifySettings : Type 0 where
  pub has_webhook : Bool
  pub min_level : MonitorLevel
  pub alert_dedupe_minutes : ℕ

-- What of an alert the decision reads.
pub record Alert : Type 0 where
  pub device_id : ℕ
  pub signal : MonitorSignal
  pub level : MonitorLevel
  pub recovery : Bool

pub data Reply : Type 0 where
  accepted rate_limited refused unreachable : Reply

pub record Webhook : Type 0 where
  pub first : Reply
  pub second : Reply

-- LEVEL_RANK.
abbrev pub level_rank : MonitorLevel → ℕ
level_rank info = 0
level_rank warn = 1
level_rank critical = 2

abbrev pub is_recent_fault : (since : ℕ) → Alert → MonitorEvent → Bool
is_recent_fault since alert e =
    e.device_id == alert.device_id
    && same_signal e.signal alert.signal
    && e.notified
    && not e.recovery
    && leb since e.at

unfoldable pub announced_recently : (now minutes : ℕ) → Alert → List MonitorEvent → Bool
announced_recently now minutes alert events =
    if minutes == 0 then false else any (is_recent_fault (now - minutes * 60000) alert) events

abbrev is_accepted : Reply → Bool
is_accepted accepted = true
is_accepted _ = false

unfoldable pub post : Webhook → Bool
post hook = elim hook.first [
  | accepted ↦ true
  | rate_limited ↦ is_accepted hook.second
  | refused ↦ false
  | unreachable ↦ false
]

unfoldable pub notify : NotifySettings → (now : ℕ) → Webhook → List MonitorEvent → Alert → Bool
unfolding announced_recently post
notify s now hook events alert =
    if not s.has_webhook
    then false
    else (if not alert.recovery && ltb (level_rank alert.level) (level_rank s.min_level)
        then false
        else (if not alert.recovery && announced_recently now s.alert_dedupe_minutes alert events
            then false
            else post hook))
