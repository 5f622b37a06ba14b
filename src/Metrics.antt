-- ===== src/Metrics.antt =====
-- apps/hub/src/services/metrics.ts: the samples that are kept of the boxes' heartbeats, and the prune
-- of what is past its time. A table is the list of its rows in the order in which the database gives
-- them. A figure with a fraction is in thousandths, and a temperature counts from absolute zero.
pub mod Batches
pub mod Prune
pub mod Reopening
pub mod Gate
pub mod Sampling
pub mod Slots
use magnemite.Prelude.{
  ℕ, zero, suc, ◌+◌, ◌-◌, ◌*◌, ◌/◌, ◌==◌, leb, ltb, max, if◌then◌else◌, Bool, false, not, ◌&&◌,
  Option, none, some, String, str_eq, List, [], ◌∷◌, ◌++◌, any, keep, length, take, find,
}

pub record ProcessFigures : Type 0 where
  pub package_name : String
  pub cpu_percent : Option ℕ
  pub rss_bytes : Option ℕ
  pub process_count : Option ℕ

pub record Figures : Type 0 where
  pub load_avg1 : Option ℕ
  pub load_avg5 : Option ℕ
  pub load_avg15 : Option ℕ
  pub cpu_count : Option ℕ
  pub mem_total_bytes : Option ℕ
  pub mem_available_bytes : Option ℕ
  pub free_bytes : Option ℕ
  pub total_bytes : Option ℕ
  pub cpu_temp : Option ℕ
  pub battery_temp : Option ℕ

pub record BeatMetrics : Type 0 where
  pub figures : Figures
  pub processes : List ProcessFigures

pub record DeviceSample : Type 0 where
  pub id : ℕ
  pub device_id : ℕ
  pub at : ℕ
  pub figures : Figures

pub record PackageSample : Type 0 where
  pub id : ℕ
  pub device_id : ℕ
  pub at : ℕ
  pub process : ProcessFigures

-- Of a row that the Rotom sync writes, what the prune reads.
pub record RotomSample : Type 0 where
  pub id : ℕ
  pub device_id : ℕ
  pub at : ℕ

-- An entry of `lastSampleAt`.
pub record LastSample : Type 0 where
  pub device_id : ℕ
  pub at : ℕ

pub record History : Type 0 where
  pub last_sample_at : List LastSample
  pub last_prune_at : ℕ
  pub next_id : ℕ
  pub samples : List DeviceSample
  pub package_samples : List PackageSample
  pub rotom_samples : List RotomSample

pub record HistorySettings : Type 0 where
  pub metrics_sample_seconds : ℕ
  pub heartbeat_seconds : ℕ
  pub metrics_retention_days : ℕ
  pub rotom_retention_days : ℕ

-- Which of the two inserts the database takes.
pub data Inserts : Type 0 where
  both first_only neither : Inserts

abbrev pub last_device : LastSample → ℕ
last_device s = s.device_id

abbrev pub forget_sample : ℕ → List LastSample → List LastSample
forget_sample d slots = keep (λ s. not (s.device_id == d)) slots

abbrev pub claim : (d now : ℕ) → List LastSample → List LastSample
claim d now slots = record { device_id = d; at = now } ∷ forget_sample d slots

abbrev pub interval_ms : HistorySettings → ℕ
interval_ms s = max s.metrics_sample_seconds 1 * 1000

-- The slot of the clock is taken.
abbrev pub is_taken : (now interval : ℕ) → Option LastSample → Bool
is_taken now interval none = false
is_taken now interval (some previous) = now / interval == previous.at / interval

abbrev package_rows : (d now next : ℕ) → List ProcessFigures → List PackageSample
package_rows d now next [] = []
package_rows d now next (p ∷ ps) =
    record { id = next; device_id = d; at = now; process = p } ∷ package_rows d now (suc next) ps

abbrev named_processes : List ProcessFigures → List ProcessFigures
named_processes ps = keep (λ p. not (str_eq p.package_name "")) ps

abbrev device_row : (d now : ℕ) → BeatMetrics → History → DeviceSample
device_row d now metrics h = record {
  id = h.next_id;
  device_id = d;
  at = now;
  figures = metrics.figures;
}

-- The inserts, once the slot is claimed. Without a process there is no second one.
unfoldable pub insert_samples : Inserts → (d now : ℕ) → BeatMetrics → History → History
insert_samples neither d now metrics h = record h {
  last_sample_at = forget_sample d h.last_sample_at;
}
insert_samples both d now metrics h = record h {
  samples = device_row d now metrics h ∷ h.samples;
  package_samples =
      package_rows d now (suc h.next_id) (named_processes metrics.processes) ++ h.package_samples;
  next_id = suc h.next_id + length (named_processes metrics.processes);
}
insert_samples first_only d now metrics h =
    let stored = record h {
      samples = device_row d now metrics h ∷ h.samples;
      next_id = suc h.next_id;
    } in
    if length (named_processes metrics.processes) == 0
    then stored
    else record stored { last_sample_at = forget_sample d h.last_sample_at }

unfoldable pub record_sample :
    HistorySettings → Inserts → (now d : ℕ) → BeatMetrics → History → History
unfolding insert_samples find
record_sample s answer now d metrics h =
    if s.metrics_retention_days == 0
    then h
    else (if ltb s.heartbeat_seconds s.metrics_sample_seconds
          && is_taken now (interval_ms s) (find last_device d h.last_sample_at)
        then h
        else insert_samples answer d now metrics
            (record h { last_sample_at = claim d now h.last_sample_at }))

abbrev pub prune_interval_ms : ℕ
prune_interval_ms = 60 * 60 * 1000

abbrev pub prune_batch : ℕ
prune_batch = 5000

abbrev pub cutoff_for : (now days : ℕ) → ℕ
cutoff_for now days = if days == 0 then now else now - days * (24 * 60 * 60 * 1000)

module _ {A : Type 0} (id at : A → ℕ) where
  abbrev pub is_old : (cutoff : ℕ) → A → Bool
  is_old cutoff r = ltb (at r) cutoff

  abbrev pub is_in_batch : List A → ℕ → Bool
  is_in_batch rows k = any (λ r. id r == k) rows

  -- `deleteMany` by the keys of a batch.
  abbrev pub remove_ids : List A → List A → List A
  remove_ids batch rows = keep (λ r. not (is_in_batch batch (id r))) rows

  abbrev pub prune_more : ℕ → Option (ℕ × List A) → Option (ℕ × List A)
  prune_more count none = none
  prune_more count (some (removed, rows)) = some (count + removed, rows)

  -- `pruneTable`, on fuel: a round for each batch. `none` is a loop that the fuel does not end.
  unfoldable pub prune_table : (fuel cutoff : ℕ) → List A → Option (ℕ × List A)
  prune_table zero cutoff rows = none
  prune_table (suc fuel) cutoff rows =
      let batch = take prune_batch (keep (is_old cutoff) rows) in
      let rest = remove_ids batch rows in
      let count = length rows - length rest in
      let more = prune_more count (prune_table fuel cutoff rest) in
      if length batch == 0
      then some (0, rows)
      else (if ltb (length batch) prune_batch then some (count, rest) else more)

-- The three tables, one after another.
abbrev pub prune_tables : (fuel cutoff rotom_cutoff : ℕ) → History → Option (History × ℕ)
prune_tables fuel cutoff rotom_cutoff h =
    elim (prune_table (λ s. s.id) (λ s. s.at) fuel cutoff h.samples) [
      | none ↦ none
      | some (a, samples) ↦
          elim (prune_table (λ s. s.id) (λ s. s.at) fuel cutoff h.package_samples) [
            | none ↦ none
            | some (b, package_samples) ↦
                elim (prune_table (λ s. s.id) (λ s. s.at) fuel rotom_cutoff h.rotom_samples) [
                  | none ↦ none
                  | some (c, rotom_samples) ↦ some (
                    record h {
                      samples = samples;
                      package_samples = package_samples;
                      rotom_samples = rotom_samples;
                    },
                    a + b + c,
                  )
                ]
          ]
    ]

unfoldable pub prune_metrics :
    (fuel : ℕ) → (force : Bool) → (now : ℕ) → HistorySettings → History → Option (History × ℕ)
unfolding prune_table
prune_metrics fuel force now s h =
    if not force && ltb now (h.last_prune_at + prune_interval_ms)
    then some (h, 0)
    else prune_tables fuel (cutoff_for now s.metrics_retention_days)
        (cutoff_for now s.rotom_retention_days)
        (record h {
          last_prune_at = now;
          last_sample_at = keep (λ l. leb now (l.at + prune_interval_ms)) h.last_sample_at;
        })
