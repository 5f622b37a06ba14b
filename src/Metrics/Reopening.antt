-- ===== src/Metrics/Reopening.antt =====
-- What the prune of metrics.ts does to the gate of a box that beats on, but was last sampled more than
-- an hour ago.
use native.Mathlib.Omega.{arith}
use magnemite.Prelude.{
  ℕ, ◌+◌, ◌/◌, ◌<◌, ◌==◌, ◌≡◌, ◌∙◌, refl, ap, subst, inl, inr, Option-cases, leb, ltb, Bool, true,
  false, not, ◌&&◌, Option, none, some, List, ◌∷◌, keep, find, IsKeyed,
}
use magnemite.Metrics.{
  BeatMetrics, LastSample, History, HistorySettings, both, last_device, interval_ms, insert_samples,
  record_sample, prune_table, prune_tables, prune_metrics, prune_interval_ms, cutoff_for,
}
use magnemite.Metrics.Gate.{find-keep_held}

abbrev Have : List LastSample → Option (History × ℕ) → Type 0
Have slots none = Unit
Have slots (some (h, n)) = h.last_sample_at ≡ slots

prune_tables-Have :
    (fuel cutoff rotom_cutoff : ℕ) (h : History)
    → Have h.last_sample_at (prune_tables fuel cutoff rotom_cutoff h)
prune_tables-Have fuel cutoff rotom_cutoff h =
    elim (Option-cases (prune_table (λ r. r.id) (λ r. r.at) fuel cutoff h.samples)) [
      | inl stuck ↦ rw (prune_tables, stuck) tt
      | inr (x, e) ↦
          elim (Option-cases (prune_table (λ r. r.id) (λ r. r.at) fuel cutoff h.package_samples)) [
            | inl stuck ↦ rw (prune_tables, e) (rw stuck tt)
            | inr (y, e') ↦
                elim (Option-cases
                  (prune_table (λ r. r.id) (λ r. r.at) fuel rotom_cutoff h.rotom_samples)) [
                    | inl stuck ↦ rw (prune_tables, e) (rw e' (rw stuck tt))
                    | inr (z, e'') ↦ rw (prune_tables, e) (rw e' (rw e'' refl))
                  ]
          ]
    ]

module _ (s : HistorySettings) (fuel n now later d : ℕ) (force : Bool) (m : BeatMetrics)
    (h h' : History) (g : LastSample) where
  forgets :
      (not force && ltb now (h.last_prune_at + prune_interval_ms) ≡ false)
      → IsKeyed last_device h.last_sample_at
      → find last_device d h.last_sample_at ≡ some g
      → g.at + prune_interval_ms < now
      → prune_metrics fuel force now s h ≡ some (h', n)
      → find last_device d h'.last_sample_at ≡ none
  unfolding prune_metrics
  forgets due u found past e =
      let slots = keep (λ l. leb now (l.at + prune_interval_ms)) h.last_sample_at in
      let have : Have slots (prune_metrics fuel force now s h) = rw due (
        prune_tables-Have fuel (cutoff_for now s.metrics_retention_days)
          (cutoff_for now s.rotom_retention_days) _) in
      let old : leb now (g.at + prune_interval_ms) ≡ false = ground arith in
      let kept =
        find-keep_held (λ l. leb now (l.at + prune_interval_ms)) d h.last_sample_at u found in
      let is_slots : h'.last_sample_at ≡ slots = subst (Have slots) e have in
      ap (find last_device d) is_slots ∙ (rw old at kept)

  -- If a box was last sampled more than an hour before a prune that is due, then a later heartbeat
  -- in the slot of that sample, which would not be stored without the prune, is stored after it.
  pub prune_metrics_reopens :
      (s.metrics_retention_days == 0 ≡ false)
      → (ltb s.heartbeat_seconds s.metrics_sample_seconds ≡ true)
      → (not force && ltb now (h.last_prune_at + prune_interval_ms) ≡ false)
      → IsKeyed last_device h.last_sample_at
      → find last_device d h.last_sample_at ≡ some g
      → g.at + prune_interval_ms < now
      → (later / interval_ms s == g.at / interval_ms s ≡ true)
      → prune_metrics fuel force now s h ≡ some (h', n)
      → (record_sample s both later d m h ≡ h)
        × ((record_sample s both later d m h').samples
            ≡ record { id = h'.next_id; device_id = d; at = later; figures = m.figures }
              ∷ h'.samples)
  unfolding record_sample insert_samples
  prune_metrics_reopens kept gated due u found past same e =
      (rw (kept, gated, found, same) refl, rw (kept, gated, forgets due u found past e) refl)
