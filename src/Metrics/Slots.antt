-- ===== src/Metrics/Slots.antt =====
-- What is left of the samples' slots by any heartbeats and prunes of metrics.ts.
use native.Mathlib.Omega.{arith}
use magnemite.Prelude.{
  ℕ, zero, suc, ◌+◌, ◌≤◌, ◌<◌, ◌==◌, ◌≡◌, ◌⊎◌, subst, inl, inr, Option-cases, if_either, leb, ltb,
  Bool, true, not, ◌&&◌, Option, none, some, List, [], keep, All, keep-All, All-map, find,
  keep-IsKeyed, length, take,
}
use magnemite.Metrics.{
  BeatMetrics, History, HistorySettings, Inserts, neither, both, last_device, interval_ms, is_taken,
  record_sample, prune_table, prune_tables, prune_more, prune_metrics, prune_interval_ms,
  cutoff_for, is_old, is_in_batch, remove_ids, prune_batch,
}
use magnemite.Metrics.Sampling.{
  IsApart, keep-IsApart, Covers, Holds, Holds-later, neither-Holds, both-Holds, pruned-Covers,
}

-- A batch that is removed leaves a part of the table.
module _ {A : Type 0} (id at : A → ℕ) (P : List A → Type 0)
    (closed : (p : A → Bool) (xs : List A) → P xs → P (keep p xs)) where
  abbrev Fits : Option (ℕ × List A) → Type 0
  Fits none = Unit
  Fits (some (n, rows)) = P rows

  prune_more-Fits : (n : ℕ) (o : Option (ℕ × List A)) → Fits o → Fits (prune_more id at n o)
  prune_more-Fits n none f = tt
  prune_more-Fits n (some (m, rows)) f = f

  prune_table-Fits :
      (fuel cutoff : ℕ) (rows : List A) → P rows → Fits (prune_table id at fuel cutoff rows)
  unfolding prune_table
  prune_table-Fits zero cutoff rows p = tt
  prune_table-Fits (suc fuel) cutoff rows p =
      let batch = take prune_batch (keep (is_old id at cutoff) rows) in
      let rest = remove_ids id at batch rows in
      let part = closed (λ r. not (is_in_batch id at batch (id r))) rows p in
      if_either Fits (length batch == 0) _ _ (λ e. p)
        (λ e.
          if_either Fits (ltb (length batch) prune_batch) _ _ (λ e'. part)
            (λ e'. prune_more-Fits _ _ (prune_table-Fits fuel cutoff rest part)))

module _ (s : HistorySettings) where
  -- Heartbeats and prunes at instants that do not go back. A heartbeat is stored whole or not at all.
  pub data Steps : ℕ → History → Type 0 where
    starts : {now : ℕ} {h : History} → h.samples ≡ [] → h.last_sample_at ≡ [] → Steps now h
    beats :
        {now : ℕ} {h : History} (later d : ℕ) (answer : Inserts) (m : BeatMetrics)
        → now ≤ later
        → (answer ≡ both) ⊎ (answer ≡ neither)
        → Steps now h
        → Steps later (record_sample s answer later d m h)
    prunes :
        {now : ℕ} {h h' : History} (later fuel n : ℕ) (force : Bool)
        → now ≤ later
        → prune_metrics fuel force later s h ≡ some (h', n)
        → Steps now h
        → Steps later h'

  abbrev interval : ℕ
  interval = interval_ms s

  module _ (gated : s.heartbeat_seconds < s.metrics_sample_seconds)
      (hourly : s.metrics_sample_seconds ≤ 3600) where
    pos : 0 < interval
    pos = omega arith

    short : interval ≤ prune_interval_ms
    short = omega arith

    abbrev Sound : ℕ → History → Type 0
    Sound now h = Holds interval pos short now h

    record_sample-Sound :
        (now later d : ℕ) (answer : Inserts) (m : BeatMetrics) (h : History)
        → now ≤ later
        → (answer ≡ both) ⊎ (answer ≡ neither)
        → Sound now h
        → Sound later (record_sample s answer later d m h)
    unfolding record_sample
    record_sample-Sound now later d answer m h le ok holds =
        let gate : ltb s.heartbeat_seconds s.metrics_sample_seconds ≡ true = ground arith in
        if_either (Sound later) (s.metrics_retention_days == 0) _ _
          (λ e. Holds-later interval pos short now later h le holds)
          (λ e. rw gate (
            if_either (Sound later) (is_taken later interval (find last_device d h.last_sample_at))
              _ _ (λ e'. Holds-later interval pos short now later h le holds)
              (λ free. elim ok [
                | inl whole ↦ rw whole (both-Holds interval pos short now later d le h holds free m)
                | inr nothing ↦
                    rw nothing (neither-Holds interval pos short now later d le h holds free m)
              ])))

    abbrev AreSound : ℕ → Option (History × ℕ) → Type 0
    AreSound now none = Unit
    AreSound now (some (h, n)) = Sound now h

    prune_tables-Sound :
        (now fuel cutoff rotom_cutoff : ℕ) (h : History)
        → Sound now h
        → AreSound now (prune_tables fuel cutoff rotom_cutoff h)
    prune_tables-Sound now fuel cutoff rotom_cutoff h (a, c, u) =
        let part =
          prune_table-Fits (λ r. r.id) (λ r. r.at)
            (λ rows.
              IsApart interval rows × All (Covers interval pos short now h.last_sample_at) rows)
            (λ p rows (a', c'). (keep-IsApart interval pos short p rows a', keep-All _ p rows c'))
            fuel cutoff h.samples (a, c) in
        elim (Option-cases (prune_table (λ r. r.id) (λ r. r.at) fuel cutoff h.samples)) [
          | inl stuck ↦ rw (prune_tables, stuck) tt
          | inr ((n, samples), e) ↦
              let held = rw e at part in
              elim (Option-cases
                (prune_table (λ r. r.id) (λ r. r.at) fuel cutoff h.package_samples)) [
                  | inl stuck ↦ rw (prune_tables, e) (rw stuck tt)
                  | inr ((m, packages), e') ↦
                      elim (Option-cases
                        (prune_table (λ r. r.id) (λ r. r.at) fuel rotom_cutoff h.rotom_samples)) [
                          | inl stuck ↦ rw (prune_tables, e) (rw e' (rw stuck tt))
                          | inr ((k, rotoms), e'') ↦
                              rw (prune_tables, e) (rw e' (rw e'' (held.0, held.1, u)))
                        ]
                ]
        ]

    prune_metrics-Sound :
        (now later fuel : ℕ) (force : Bool) (h : History)
        → now ≤ later
        → Sound now h
        → AreSound later (prune_metrics fuel force later s h)
    unfolding prune_metrics
    prune_metrics-Sound now later fuel force h le holds =
        let (a, c, u) = Holds-later interval pos short now later h le holds in
        if_either (AreSound later) (not force && ltb later (h.last_prune_at + prune_interval_ms)) _
          _ (λ e. (a, c, u))
          (λ e.
            prune_tables-Sound later fuel (cutoff_for later s.metrics_retention_days)
              (cutoff_for later s.rotom_retention_days) _
              (
                a,
                All-map _ _ h.samples
                    (λ y. pruned-Covers interval pos short later h.last_sample_at y u) c,
                keep-IsKeyed last_device (λ l. leb later (l.at + prune_interval_ms))
                    h.last_sample_at u,
              ))

    Steps-Sound : {now : ℕ} {h : History} → Steps now h → Sound now h
    Steps-Sound (starts e e') = rw (e, e') (tt, tt, tt)
    Steps-Sound (beats {now} {h} later d answer m le ok t) =
        record_sample-Sound now later d answer m h le ok (Steps-Sound t)
    Steps-Sound (prunes {now} {h} later fuel n force le e t) =
        subst (AreSound later) e (prune_metrics-Sound now later fuel force h le (Steps-Sound t))

    -- With a sample interval above the heartbeat's and of at most an hour, whatever heartbeats and
    -- prunes follow on one another from a history without samples, at instants that do not go back
    -- and with each heartbeat stored whole or not at all, the samples of one box have slots of the
    -- clock that go up: there are no two in one slot.
    pub Steps-IsApart : {now : ℕ} {h : History} → Steps now h → IsApart interval h.samples
    Steps-IsApart t = (Steps-Sound t).0
