-- ===== src/Metrics/Prune.antt =====
-- The prune of metrics.ts over all three tables.
use magnemite.Prelude.{
  ℕ, ◌+◌, ◌*◌, ◌<◌, ◌≡◌, refl, leb, ltb, Bool, false, not, ◌&&◌, some, keep, count_if, IsKeyed,
}
use magnemite.Metrics.{
  prune_batch, History, HistorySettings, prune_metrics, prune_tables, cutoff_for, prune_interval_ms,
}
use magnemite.Metrics.Batches.{prune_table_lem}

module _ (fuel now : ℕ) (s : HistorySettings) (h : History) where
  abbrev cutoff : ℕ
  cutoff = cutoff_for now s.metrics_retention_days

  abbrev rotom_cutoff : ℕ
  rotom_cutoff = cutoff_for now s.rotom_retention_days

  abbrev pub pruned : History
  pruned = record h {
    last_prune_at = now;
    last_sample_at = keep (λ l. leb now (l.at + prune_interval_ms)) h.last_sample_at;
    samples = keep (λ r. not (ltb r.at cutoff)) h.samples;
    package_samples = keep (λ r. not (ltb r.at cutoff)) h.package_samples;
    rotom_samples = keep (λ r. not (ltb r.at rotom_cutoff)) h.rotom_samples;
  }

  abbrev pub pruned_count : ℕ
  pruned_count =
      count_if (λ r. ltb r.at cutoff) h.samples
      + count_if (λ r. ltb r.at cutoff) h.package_samples
      + count_if (λ r. ltb r.at rotom_cutoff) h.rotom_samples

  -- When a prune is due and the keys of each table are its own, fuel of as many rounds as there
  -- are whole batches of old rows in a table and one more ends the loops over all three, and then
  -- no row that is past its table's retention is left, every other is, the boxes not sampled for
  -- an hour are forgotten, and the number returned is that of the rows removed.
  pub prune_metrics_ends :
      (force : Bool)
      → (not force && ltb now (h.last_prune_at + prune_interval_ms) ≡ false)
      → IsKeyed (λ r. r.id) h.samples
      → IsKeyed (λ r. r.id) h.package_samples
      → IsKeyed (λ r. r.id) h.rotom_samples
      → count_if (λ r. ltb r.at cutoff) h.samples < fuel * prune_batch
      → count_if (λ r. ltb r.at cutoff) h.package_samples < fuel * prune_batch
      → count_if (λ r. ltb r.at rotom_cutoff) h.rotom_samples < fuel * prune_batch
      → prune_metrics fuel force now s h ≡ some (pruned, pruned_count)
  unfolding prune_metrics
  prune_metrics_ends force due u v w a b c = rw due (
      rw (prune_tables, prune_table_lem (λ r. r.id) (λ r. r.at) cutoff fuel h.samples u a)
        (rw (prune_table_lem (λ r. r.id) (λ r. r.at) cutoff fuel h.package_samples v b) (
          rw (prune_table_lem (λ r. r.id) (λ r. r.at) rotom_cutoff fuel h.rotom_samples w c) refl)))
