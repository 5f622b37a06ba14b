-- ===== src/Tests/Notify.antt =====
-- Three alerts of one box, of which the second comes too soon after the first.
use magnemite.Prelude.{◌+◌, ◌≡◌, refl, arith, true, false, none, [], ◌∷◌, map}
use magnemite.Monitor.{MonitorLevel, Monitor}
use magnemite.Monitor.Actions.{Outside, EventInput}
use magnemite.Monitor.Records.{record_event}
use magnemite.Notify.{
  NotifySettings, Webhook, accepted, rate_limited, notify, announced_recently, post,
}
use magnemite.Notify.Spacing.{IsSpaced, starts, records, Recorded-IsSpaced}
use magnemite.Tests.Monitor.{box, outside, at_first, anr_rule, noon}

abbrev settings : NotifySettings
settings = record { has_webhook = true; min_level = MonitorLevel.warn; alert_dedupe_minutes = 30 }

abbrev fault : EventInput
fault = record {
  level = MonitorLevel.warn;
  message = "not responding";
  action = none;
  action_ok = none;
  detail = [];
  recovery = false;
}

abbrev hook : Webhook
hook = record { first = rate_limited; second = accepted }

abbrev deaf : Outside
deaf = record outside { notice_lands = λ d r e. false }

abbrev thrice : Monitor
thrice = record_event outside (noon + 1860000) box anr_rule fault true (
    record_event deaf (noon + 60000) box anr_rule fault true
      (record_event outside noon box anr_rule fault true at_first))

thrice_notified : map (λ e. e.notified) thrice.events ≡ true ∷ false ∷ true ∷ []
unfolding record_event
thrice_notified = refl

Recorded-IsSpaced_example : IsSpaced 30 thrice.events
unfolding notify announced_recently post record_event
Recorded-IsSpaced_example = Recorded-IsSpaced {s = settings} {m = thrice} (omega arith) (
    records outside (noon + 1860000) box anr_rule fault true hook refl (
      records deaf (noon + 60000) box anr_rule fault true hook refl
        (records outside noon box anr_rule fault true hook refl (starts refl))))
