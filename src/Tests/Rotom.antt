-- ===== src/Tests/Rotom.antt =====
-- Two boxes that Rotom lists, of which it loses one, and one box that two of its devices are.
use magnemite.Prelude.{
  ℕ, ◌≡◌, ◌≤◌, refl, arith, true, false, Bool, Option, none, some, String, List, [], ◌∷◌, map, find,
  All, count_if, subst, eq_of_some,
}
use magnemite.Rotom.{RotomWorker, RotomDevice, RotomState, OurDevice, same_visible_state}
use magnemite.Rotom.Workers.{summarise_workers, stats_of, add_workers, add_worker, round2}
use magnemite.Rotom.Matching.{match_device, next_state}
use magnemite.Rotom.Sync.{
  Syncing, SyncPass, PollAnswer, fails, lists, RotomSampleRow, take_device, sweep_device,
}
use magnemite.Rotom.Pass.{heard, sync_devices, maybe_sync}
use magnemite.Rotom.Loop.{is_box, shown}
use magnemite.Rotom.Standing.{away, standing, sighting, IsRow, IsOnce}
use magnemite.Rotom.Running.{Runs, begins, ticks, tick, Runs-standing}
use magnemite.Rotom.History.{Agrees, Writes, sync_devices-Agrees}

abbrev state : (device_id : String) → (connected : Bool) → RotomState
state i c = record {
  origin = none;
  device_id = some i;
  connected = c;
  worker_count = none;
  last_seen_at = none;
  enabled = true;
  can_be_used = c;
  workers_in_use = none;
  in_use = false;
  version = none;
  request_rate = none;
  request_ms = none;
  stat_workers = none;
}

abbrev box : ℕ → String → OurDevice
box k i = record {
  id = k;
  name = i;
  serial = "s";
  local_ip = some "10.0.0.1";
  public_ip = none;
  rotom = state i true;
}

abbrev device : String → Option String → (connected : Bool) → RotomDevice
device i origin c = record {
  id = i;
  origin = origin;
  version = none;
  public_ip = none;
  worker_count = none;
  worker_in_use_count = none;
  last_seen_at_ms = none;
  enabled = none;
  is_connected = some c;
  can_be_used = some c;
  is_in_use = none;
  workers = none;
}

abbrev start : List OurDevice → Syncing
start ds = record {
  devices = ds;
  workers = [];
  misses = [];
  last_slot = none;
  samples = [];
  bus = [];
  last_synced_at = 0;
}

abbrev pass : ℕ → PollAnswer → SyncPass
pass now answer = record {
  lower = λ s. s;
  by_worker_id = λ ws. ws;
  now = now;
  rotom_is_on = true;
  rotom_retention_days = 7;
  rotom_sample_seconds = 60;
  answer = answer;
  stores = true;
}

abbrev one_of_two : PollAnswer
one_of_two = lists (some (device "a" none true) ∷ none ∷ [])

abbrev fleet : Syncing
fleet = start (box 1 "a" ∷ box 2 "b" ∷ [])

abbrev tick_one : Syncing
tick_one = maybe_sync 10 (pass 10000 one_of_two) fleet

abbrev tick_two : Syncing
tick_two = maybe_sync 10 (pass 20000 fails) tick_one

abbrev tick_three : Syncing
tick_three = maybe_sync 10 (pass 30000 one_of_two) tick_two

-- A list of one device holds no box twice.
alone : (now k : ℕ) (s : Syncing) → IsOnce (pass now one_of_two) k s
unfolding IsOnce heard
alone now k s rs e =
    subst (λ rs. count_if (is_box (pass now one_of_two) s.devices k) rs ≤ 1) (eq_of_some e)
      (ground arith)

silent : (now k : ℕ) (s : Syncing) → IsOnce (pass now fails) k s
unfolding IsOnce heard
silent now k s rs e = absurd (cc)

three_ticks :
    Runs 2
      (tick 10 (pass 30000 one_of_two) 2 tick_two
        ∷ tick 10 (pass 20000 fails) 2 tick_one
        ∷ tick 10 (pass 10000 one_of_two) 2 fleet
        ∷ [])
      fleet
      tick_three
three_ticks = ticks 10 (pass 30000 one_of_two) (alone 30000 2 tick_two) (
    ticks 10 (pass 20000 fails) (silent 20000 2 tick_one)
      (ticks 10 (pass 10000 one_of_two) (alone 10000 2 fleet) begins))

-- The poll that fails neither counts nor forgives.
Runs-standing_example : standing 2 tick_three ≡ away
unfolding tick sighting IsRow find heard maybe_sync sync_devices shown match_device sweep_device
    take_device same_visible_state next_state summarise_workers
Runs-standing_example = Runs-standing 2 three_ticks ((refl, (refl, tt)), (box 2 "b", refl))

sync_devices-Agrees_example :
    (rows : List RotomSampleRow) × ((sync_devices (pass 60000 one_of_two) fleet).0.samples ≡ rows)
    × (map (λ (w : RotomSampleRow). w.device_id) rows ≡ 1 ∷ 2 ∷ [])
    × All (Agrees 60000 (sync_devices (pass 60000 one_of_two) fleet).0.devices) rows
unfolding find Writes heard
sync_devices-Agrees_example =
    sync_devices-Agrees (pass 60000 one_of_two) fleet (refl, (refl, tt))
      ((_, refl), (λ e. absurd (cc)), refl, refl) (λ k. alone 60000 k fleet)

shared_address : match_device (λ s. s) (device "c" (some "10.0.0.1") true) fleet.devices ≡ none
unfolding match_device
shared_address = refl

-- A device of an old registration at the address of box 1, listed before the box's own.
abbrev twice : PollAnswer
twice = lists (some (device "old" (some "10.0.0.1") false) ∷ some (device "a" none true) ∷ [])

abbrev after_twice : Syncing
after_twice = (sync_devices (pass 60000 twice) (start (box 1 "a" ∷ []))).0

-- The tick_two is not written, as it is what the pass had read, but it is what the history says.
row_is_stale : map (λ d. d.rotom.connected) after_twice.devices ≡ false ∷ []
unfolding sync_devices sweep_device take_device match_device same_visible_state next_state
    summarise_workers
row_is_stale = refl

history_is_not : map (λ w. w.connected) after_twice.samples ≡ true ∷ []
unfolding sync_devices sweep_device take_device match_device same_visible_state next_state
    summarise_workers
history_is_not = refl

-- One of ten requests a tick_two of 40 ms, one of a tenth of 3.456 s, one that does not report.
abbrev worker : Option ℕ → Option ℕ → RotomWorker
worker rate ms = record { id = "w"; rate = rate; ms = ms }

mean_is_weighted :
    summarise_workers (
      some (
        worker (some 10000) (some 40000)
        ∷ worker (some 100) (some 3456000)
        ∷ worker none (some 5)
        ∷ []))
    ≡ record { rate = some 10100; ms = some 73820; reporting = some 2 }
unfolding summarise_workers stats_of add_workers add_worker round2
mean_is_weighted = refl

nobody_reports : (summarise_workers (some (worker none none ∷ []))).rate ≡ none
unfolding summarise_workers stats_of add_workers add_worker
nobody_reports = refl
