-- ===== src/Rotom/Sync.antt =====
-- rotom.ts: one pass over what Rotom lists (syncDevices, write, sweep, record) and its loop.
use magnemite.Prelude.{
  ℕ, ◌+◌, ◌==◌, ltb, if◌then◌else◌, Bool, true, false, not, ◌&&◌, ◌||◌, Option, none, some, String,
  List, [], ◌∷◌, any, keep, update, find, or_else,
}
use mathlib.Core.Option
use magnemite.Sources.Stats.{put_value, add_seen}
use magnemite.Rotom.{
  RotomWorker, RotomDevice, RotomState, OurDevice, our_key, same_visible_state, same_instant,
}
use magnemite.Rotom.Matching.{match_device, next_state}

-- `workersByDevice`, `misses` and `believed` are Maps by the box.
pub record CachedWorkers : Type 0 where
  pub device_id : ℕ
  pub at : ℕ
  pub workers : List RotomWorker

pub record Miss : Type 0 where
  pub device_id : ℕ
  pub count : ℕ

pub record Belief : Type 0 where
  pub device_id : ℕ
  pub state : RotomState

pub record RotomSampleRow : Type 0 where
  pub device_id : ℕ
  pub at : ℕ
  pub connected : Bool
  pub enabled : Bool
  pub can_be_used : Bool
  pub in_use : Bool
  pub worker_count : Option ℕ
  pub workers_in_use : Option ℕ
  pub request_rate : Option ℕ
  pub request_ms : Option ℕ

-- The rows of the boxes, the module's Maps and variables (`last_slot` is none for −1), the stored history,
-- and the boxes that were announced on the bus, the last first.
pub record Syncing : Type 0 where
  pub devices : List OurDevice
  pub workers : List CachedWorkers
  pub misses : List Miss
  pub last_slot : Option ℕ
  pub samples : List RotomSampleRow
  pub bus : List ℕ
  pub last_synced_at : ℕ

-- What Rotom answers: an error, or a list in which none is an entry that does not parse.
pub data PollAnswer : Type 0 where
  fails : PollAnswer
  lists : List (Option RotomDevice) → PollAnswer

-- What a pass takes from outside: the lower case of a text, the order of the workers' ids, the instant,
-- the settings, the answer, and whether the history is stored.
pub record SyncPass : Type 0 where
  pub lower : String → String
  pub by_worker_id : List RotomWorker → List RotomWorker
  pub now : ℕ
  pub rotom_is_on : Bool
  pub rotom_retention_days : ℕ
  pub rotom_sample_seconds : ℕ
  pub answer : PollAnswer
  pub stores : Bool

abbrev pub miss_key : Miss → ℕ
miss_key m = m.device_id

abbrev pub belief_key : Belief → ℕ
belief_key b = b.device_id

abbrev pub workers_key : CachedWorkers → ℕ
workers_key w = w.device_id

-- `delete` of a Map, by the key of its values.
abbrev pub delete_value {ℓ} : {A : Type ℓ} → (key : A → ℕ) → ℕ → List A → List A
delete_value key k xs = keep (λ x. not (key x == k)) xs

abbrev parsed : List (Option RotomDevice) → List RotomDevice
parsed [] = []
parsed (none ∷ xs) = parsed xs
parsed (some r ∷ xs) = r ∷ parsed xs

-- `listDevices`. None is that it throws.
abbrev pub list_devices : PollAnswer → Option (List RotomDevice)
list_devices fails = none
list_devices (lists entries) = some (parsed entries)

abbrev pub with_rotom : RotomState → OurDevice → OurDevice
with_rotom next d = record {
  id = d.id;
  name = d.name;
  serial = d.serial;
  local_ip = d.local_ip;
  public_ip = d.public_ip;
  rotom = next;
}

abbrev pub store_state : (device_id : ℕ) → RotomState → (announced : Bool) → Syncing → Syncing
store_state k next announced s = record {
  devices = update our_key k (with_rotom next) s.devices;
  workers = s.workers;
  misses = s.misses;
  last_slot = s.last_slot;
  samples = s.samples;
  bus = (if announced then k ∷ s.bus else s.bus);
  last_synced_at = s.last_synced_at;
}

-- `write`: compared with what the pass read before its loop.
unfoldable pub write : (ours : List OurDevice) → (device_id : ℕ) → RotomState → Syncing → Syncing
unfolding find update
write ours k next s = elim (find our_key k ours) [
  | none ↦ store_state k next true s
  | some current ↦
      let visibly_changed = not (same_visible_state current.rotom next) in
      let last_seen_changed = not (same_instant current.rotom.last_seen_at next.last_seen_at) in
      if not visibly_changed && not last_seen_changed
      then s
      else store_state k next visibly_changed s
]

abbrev pub cache_workers :
    SyncPass → (device_id : ℕ) → Option (List RotomWorker) → Syncing → Syncing
cache_workers p k workers s = record {
  devices = s.devices;
  workers =
      put_value workers_key
        (record { device_id = k; at = p.now; workers = p.by_worker_id (or_else workers []) })
        s.workers;
  misses = s.misses;
  last_slot = s.last_slot;
  samples = s.samples;
  bus = s.bus;
  last_synced_at = s.last_synced_at;
}

-- The loop over the devices, with `matchedIds` and `believed`.
pub record Looped : Type 0 where
  pub state : Syncing
  pub matched : List ℕ
  pub believed : List Belief

unfoldable pub take_device : SyncPass → (ours : List OurDevice) → RotomDevice → Looped → Looped
unfolding put_value write
take_device p ours rotom l = elim (match_device p.lower rotom ours) [
  | none ↦ l
  | some k ↦
      let next = next_state rotom in
      record {
        state = write ours k next (cache_workers p k rotom.workers l.state);
        matched = add_seen k l.matched;
        believed = put_value belief_key (record { device_id = k; state = next }) l.believed;
      }
]

unfoldable pub take_devices :
    SyncPass → (ours : List OurDevice) → List RotomDevice → Looped → Looped
take_devices p ours [] l = l
take_devices p ours (r ∷ rs) l = take_devices p ours rs (take_device p ours r l)

abbrev pub misses_before_offline : ℕ
misses_before_offline = 2

-- What a box that Rotom stopped listing loses.
abbrev pub cleared : RotomState → RotomState
cleared r = record {
  origin = r.origin;
  device_id = r.device_id;
  connected = false;
  worker_count = r.worker_count;
  last_seen_at = r.last_seen_at;
  enabled = r.enabled;
  can_be_used = false;
  workers_in_use = none;
  in_use = false;
  version = r.version;
  request_rate = none;
  request_ms = none;
  stat_workers = none;
}

abbrev with_misses : List Miss → Syncing → Syncing
with_misses misses s = record {
  devices = s.devices;
  workers = s.workers;
  misses = misses;
  last_slot = s.last_slot;
  samples = s.samples;
  bus = s.bus;
  last_synced_at = s.last_synced_at;
}

abbrev pub clear_row : OurDevice → OurDevice
clear_row d = with_rotom (cleared d.rotom) d

abbrev take_offline : (device_id : ℕ) → Syncing → Syncing
take_offline k s = record {
  devices = update our_key k clear_row s.devices;
  workers = delete_value workers_key k s.workers;
  misses = delete_value miss_key k s.misses;
  last_slot = s.last_slot;
  samples = s.samples;
  bus = k ∷ s.bus;
  last_synced_at = s.last_synced_at;
}

-- `misses.get(id) ?? 0`.
abbrev pub missed : ℕ → List Miss → ℕ
missed k misses = or_else (Option.map (λ m. m.count) (find miss_key k misses)) 0

abbrev pub is_matched : ℕ → List ℕ → Bool
is_matched k matched = any (λ j. j == k) matched

-- The body of the loop of `sweep`.
unfoldable pub sweep_device : (matched : List ℕ) → OurDevice → Syncing × List ℕ → Syncing × List ℕ
unfolding put_value find update
sweep_device matched d (s, flipped) =
    let count = missed d.id s.misses + 1 in
    if is_matched d.id matched || not d.rotom.connected
    then (with_misses (delete_value miss_key d.id s.misses) s, flipped)
    else if ltb count misses_before_offline
    then (
      with_misses (put_value miss_key (record { device_id = d.id; count = count }) s.misses) s,
      flipped,
    )
    else (take_offline d.id s, add_seen d.id flipped)

unfoldable pub sweep :
    (ours : List OurDevice) → (matched : List ℕ) → Syncing × List ℕ → Syncing × List ℕ
sweep [] matched sf = sf
sweep (d ∷ ours) matched sf = sweep ours matched (sweep_device matched d sf)
