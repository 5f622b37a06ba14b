-- ===== src/Tests/Metrics.antt =====
-- A box that beats, is sampled and pruned.
use magnemite.Prelude.{ℕ, ◌≡◌, refl, inl, true, false, none, some, [], ◌∷◌, find, arith}
use magnemite.Metrics.{
  Figures, BeatMetrics, DeviceSample, History, HistorySettings, both, record_sample, insert_samples,
  prune_metrics, prune_table,
}
use magnemite.Metrics.Prune.{prune_metrics_ends}
use magnemite.Metrics.Sampling.{IsApart}
use magnemite.Metrics.Slots.{starts, beats, Steps-IsApart}
use magnemite.Metrics.Reopening.{prune_metrics_reopens}

abbrev settings : HistorySettings
settings = record {
  metrics_sample_seconds = 60;
  heartbeat_seconds = 20;
  metrics_retention_days = 7;
  rotom_retention_days = 0;
}

abbrev figures : Figures
figures = record {
  load_avg1 = some 900;
  load_avg5 = none;
  load_avg15 = none;
  cpu_count = some 4;
  mem_total_bytes = none;
  mem_available_bytes = none;
  free_bytes = some 10;
  total_bytes = some 20;
  cpu_temp = none;
  battery_temp = none;
}

abbrev metrics : BeatMetrics
metrics = record {
  figures = figures;
  processes =
      record {
        package_name = "app";
        cpu_percent = some 5;
        rss_bytes = none;
        process_count = some 1;
      }
      ∷ [];
}

abbrev empty : History
empty = record {
  last_sample_at = [];
  last_prune_at = 0;
  next_id = 1;
  samples = [];
  package_samples = [];
  rotom_samples = [];
}

abbrev sample : (id at : ℕ) → DeviceSample
sample id at = record { id = id; device_id = 5; at = at; figures = figures }

abbrev beaten : History
beaten = record_sample settings both 10020000 5 metrics (
    record_sample settings both 9980000 5 metrics
      (record_sample settings both 9960000 5 metrics empty))

beaten_samples : beaten.samples ≡ sample 3 10020000 ∷ sample 1 9960000 ∷ []
unfolding record_sample insert_samples find
beaten_samples = refl

Steps-IsApart_example : IsApart 60000 beaten.samples
Steps-IsApart_example = Steps-IsApart settings (omega arith) (omega arith) (
    beats 10020000 5 both metrics (omega arith) (inl refl) (
      beats 9980000 5 both metrics (omega arith) (inl refl) (
        beats 9960000 5 both metrics (omega arith) (inl refl)
          (starts {now = 0} {h = empty} refl refl))))

abbrev stocked : History
stocked = record empty { samples = sample 2 999999000 ∷ sample 1 5 ∷ [] }

prune_metrics_ends_example :
    prune_metrics 1 true 1000000000 settings stocked
    ≡ some (record stocked { last_prune_at = 1000000000; samples = sample 2 999999000 ∷ [] }, 1)
unfolding find
prune_metrics_ends_example =
    prune_metrics_ends 1 1000000000 settings stocked true refl (refl, (refl, tt)) tt tt
      (omega arith) (omega arith) (omega arith)

abbrev slow : HistorySettings
slow = record settings { metrics_sample_seconds = 7200 }

abbrev sampled : History
sampled = record empty { last_sample_at = record { device_id = 5; at = 7200000 } ∷ [] }

abbrev reopened : History
reopened = record empty { last_prune_at = 10800001 }

prune_metrics_reopens_example :
    (record_sample slow both 10820000 5 metrics sampled ≡ sampled)
    × ((record_sample slow both 10820000 5 metrics reopened).samples ≡ sample 1 10820000 ∷ [])
unfolding find prune_metrics prune_table
prune_metrics_reopens_example =
    prune_metrics_reopens slow 1 0 10800001 10820000 5 false metrics sampled reopened
      (record { device_id = 5; at = 7200000 }) refl refl refl (refl, tt) refl (omega arith) refl
      refl
