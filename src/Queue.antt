-- ===== src/Queue.antt =====
-- The candidates of a scheduler tick: the query at the head of `dispatchQueued` in
-- apps/hub/src/services/scheduler.ts, its joins, filter, order and limit.
pub mod Laws
pub mod Order
use magnemite.Prelude.{
  ℕ, leb, Bool, true, not, ◌&&◌, ◌||◌, Option, none, some, List, keep, take, sort,
}
use mathlib.Core.List.{filter_map}
use magnemite.Fleet.{
  Device, DeviceGroup, AppTarget, AppVersion, Fleet, find_device, find_group, find_target,
  find_version,
}
use magnemite.Store.{
  RolloutStatus, canary, running, is_queued, same_status, Job, Rollout, Db, find_rollout,
}

-- A job with the rows that the candidate query includes.
pub record Candidate : Type 0 where
  pub job : Job
  pub device : Device
  pub group : Option DeviceGroup
  pub rollout : Rollout
  pub version : AppVersion
  pub target : AppTarget

infixl 5 ◌>>=◌
abbrev pub ◌>>=◌ {ℓ κ} : {A : Type ℓ} {B : Type κ} → Option A → (A → Option B) → Option B
none >>= k = none
some a >>= k = k a

unfoldable pub group_of : Fleet → Device → Option DeviceGroup
group_of fleet d = d.group_id >>= λ g. find_group g fleet

unfoldable pub join : Fleet → Db → Job → Option Candidate
unfolding group_of
join fleet db j = do
  d ← find_device j.device_id fleet
  r ← find_rollout j.rollout_id db
  v ← find_version r.app_version_id fleet
  t ← find_target v.app_target_id fleet
  some (record {
    job = j;
    device = d;
    group = group_of fleet d;
    rollout = r;
    version = v;
    target = t;
  })

abbrev pub is_dispatching : RolloutStatus → Bool
is_dispatching s = same_status s canary || same_status s running

abbrev pub is_due : ℕ → Option ℕ → Bool
is_due now none = true
is_due now (some t) = leb t now

-- The `where` of the query.
unfoldable pub is_candidate : ℕ → Candidate → Bool
is_candidate now c =
    is_queued c.job.state
    && is_dispatching c.rollout.status
    && c.device.approved
    && is_due now c.job.next_attempt_at

-- Canaries first, then the oldest.
abbrev pub queue_order : Candidate → Candidate → Bool
queue_order a b =
    a.job.is_canary && not b.job.is_canary
    || not (not a.job.is_canary && b.job.is_canary) && leb a.job.queued_at b.job.queued_at

abbrev pub candidate_slots : ℕ
candidate_slots = 500

unfoldable pub candidates : ℕ → Fleet → Db → List Candidate
unfolding join is_candidate
candidates now fleet db =
    take candidate_slots
      (sort queue_order (keep (is_candidate now) (filter_map (join fleet db) db.jobs)))
