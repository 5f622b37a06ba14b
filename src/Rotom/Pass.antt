-- ===== src/Rotom/Pass.antt =====
-- rotom.ts: the history of a pass (record), the pass (syncDevices) and when it runs (maybeSync,
-- stopRotomSync).
use magnemite.Prelude.{
  ℕ, ◌+◌, ◌*◌, ◌/◌, ◌==◌, ltb, max, if◌then◌else◌, Bool, false, not, ◌&&◌, Option, none, some,
  is_some, List, [], ◌++◌, length, keep, map, find, or_else, count_if,
}
use mathlib.Core.Option
use magnemite.Rotom.{RotomDevice, RotomState, OurDevice, same_number}
use magnemite.Rotom.Sync.{
  Belief, RotomSampleRow, Syncing, SyncPass, belief_key, list_devices, Looped, take_devices, sweep,
  is_matched,
}

abbrev pub if_connected : Bool → Option ℕ → Option ℕ
if_connected connected o = if connected then o else none

-- A row of the history.
abbrev pub sample_of : (at : ℕ) → (device_id : ℕ) → (connected : Bool) → RotomState → RotomSampleRow
sample_of at k connected r = record {
  device_id = k;
  at = at;
  connected = connected;
  enabled = r.enabled;
  can_be_used = connected && r.can_be_used;
  in_use = connected && r.in_use;
  worker_count = if_connected connected r.worker_count;
  workers_in_use = if_connected connected r.workers_in_use;
  request_rate = if_connected connected r.request_rate;
  request_ms = if_connected connected r.request_ms;
}

abbrev believed_state : List Belief → OurDevice → RotomState
believed_state believed d =
    or_else (Option.map (λ b. b.state) (find belief_key d.id believed)) d.rotom

unfoldable pub sample_row : (at : ℕ) → List Belief → (flipped : List ℕ) → OurDevice → RotomSampleRow
unfolding find
sample_row at believed flipped d =
    let state = believed_state believed d in
    sample_of at d.id (if is_matched d.id flipped then false else state.connected) state

abbrev pub was_matched : OurDevice → Bool
was_matched d = is_some d.rotom.device_id

abbrev with_history : (slot : ℕ) → List RotomSampleRow → Syncing → Syncing
with_history slot rows s = record {
  devices = s.devices;
  workers = s.workers;
  misses = s.misses;
  last_slot = some slot;
  samples = s.samples ++ rows;
  bus = s.bus;
  last_synced_at = s.last_synced_at;
}

-- `record`.
unfoldable pub record_samples :
    SyncPass → (ours : List OurDevice) → List Belief → (flipped : List ℕ) → Syncing → Syncing
unfolding sample_row
record_samples p ours believed flipped s =
    let slot = p.now / (max p.rotom_sample_seconds 1 * 1000) in
    let rows = map (sample_row p.now believed flipped) (keep was_matched ours) in
    if p.rotom_retention_days == 0
    then s
    else if same_number (some slot) s.last_slot
    then s
    else with_history slot (if p.stores then rows else []) s

-- What a pass acts on: none is that it is off, that the poll failed, or a list with nothing in it from a
-- Rotom that has listed boxes before.
unfoldable pub heard : SyncPass → List OurDevice → Option (List RotomDevice)
heard p ours =
    let answer = list_devices p.answer in
    if not p.rotom_is_on then none else elim answer [
      | none ↦ none
      | some devices ↦
          if length devices == 0 && ltb 0 (count_if was_matched ours) then none else some devices
    ]

abbrev pub looped : SyncPass → List RotomDevice → Syncing → Looped
looped p devices s =
    take_devices p s.devices devices (record { state = s; matched = []; believed = [] })

abbrev pub swept : SyncPass → List RotomDevice → Syncing → Syncing × List ℕ
swept p devices s = let l = looped p devices s in sweep s.devices l.matched (l.state, [])

-- `syncDevices`, with `{ seen, matched }`.
unfoldable pub sync_devices : SyncPass → Syncing → Syncing × (ℕ × ℕ)
unfolding heard take_devices sweep record_samples
sync_devices p s = elim (heard p s.devices) [
  | none ↦ (s, (0, 0))
  | some devices ↦
      let l = looped p devices s in
      let (t, flipped) = swept p devices s in
      (record_samples p s.devices l.believed flipped t, (length devices, length l.matched))
]

abbrev pub synced_at : ℕ → Syncing → Syncing
synced_at now s = record {
  devices = s.devices;
  workers = s.workers;
  misses = s.misses;
  last_slot = s.last_slot;
  samples = s.samples;
  bus = s.bus;
  last_synced_at = now;
}

unfoldable pub maybe_sync : (rotom_sync_seconds : ℕ) → SyncPass → Syncing → Syncing
unfolding sync_devices
maybe_sync seconds p s =
    if ltb p.now (s.last_synced_at + seconds * 1000)
    then s
    else (sync_devices p (synced_at p.now s)).0

-- `stopRotomSync`.
abbrev pub stop_rotom_sync : Syncing → Syncing
stop_rotom_sync s = record {
  devices = s.devices;
  workers = [];
  misses = [];
  last_slot = none;
  samples = s.samples;
  bus = s.bus;
  last_synced_at = s.last_synced_at;
}
