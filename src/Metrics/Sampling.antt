-- ===== src/Metrics/Sampling.antt =====
-- The gate of recordSample in metrics.ts, and what the prune does to it.
use native.Mathlib.Omega.{arith}
use native.Mathlib.Nat.{le-div_iff_mul-le, div-mul-le_self, add-div_right}
use magnemite.Prelude.{
  ℕ, ◌+◌, ◌/◌, ◌≤◌, ◌<◌, ◌==◌, ◌≡◌, ◌∙◌, sym, subst, inl, inr, Bool-cases, Option-cases, ==_iff,
  find-keep_none, if_either, leb, Bool, false, not, Option, none, some, List, [], ◌∷◌, keep, All,
  keep-All, All-map, find, IsKeyed, keep-IsKeyed,
}
use magnemite.Metrics.{
  BeatMetrics, DeviceSample, LastSample, History, neither, both, last_device, forget_sample, claim,
  is_taken, insert_samples, prune_interval_ms,
}
use magnemite.Metrics.Gate.{
  find-forget_same, find-forget_other, same, find-claim_same, find-claim_other, find-keep_held,
}

div_mono : (a b k : ℕ) → 0 < k → a ≤ b → a / k ≤ b / k
div_mono a b k pos le = (le-div_iff_mul-le pos).1 (omega (arith, div-mul-le_self a k))

-- Of one box, the samples' slots go up, the newest first.
abbrev pub IsApart : (interval : ℕ) → List DeviceSample → Type 0
IsApart interval [] = Unit
IsApart interval (x ∷ xs) =
    All (λ y. y.device_id ≡ x.device_id → y.at / interval < x.at / interval) xs
    × IsApart interval xs

module _ (interval : ℕ) (pos : 0 < interval) (short : interval ≤ prune_interval_ms) where
  -- A sample at `at` is in a slot before that of any beat that the gate lets through.
  abbrev pub IsCovered : (now at : ℕ) → Option LastSample → Type 0
  IsCovered now at none = (at ≤ now) × (at / interval < now / interval)
  IsCovered now at (some g) = (at ≤ g.at) × (g.at ≤ now)

  IsCovered-later :
      (now later at : ℕ) (o : Option LastSample)
      → now ≤ later
      → IsCovered now at o
      → IsCovered later at o
  IsCovered-later now later at none le (a, b) =
      (omega arith, omega (arith, div_mono now later interval pos le))
  IsCovered-later now later at (some g) le (a, b) = (a, omega arith)

  IsCovered-past :
      (now at : ℕ) (o : Option LastSample)
      → IsCovered now at o
      → is_taken now interval o ≡ false
      → at / interval < now / interval
  IsCovered-past now at none (a, b) e = b
  IsCovered-past now at (some g) (a, b) e =
      let up = div_mono at g.at interval pos a in
      let on = div_mono g.at now interval pos b in ground (arith, up, on)

  IsCovered-at : (now at : ℕ) (o : Option LastSample) → IsCovered now at o → at ≤ now
  IsCovered-at now at none (a, b) = a
  IsCovered-at now at (some g) (a, b) = omega arith

  -- The prune forgets only what is more than a slot ago.
  IsCovered-forgotten :
      (now at : ℕ) (g : LastSample)
      → IsCovered now at (some g)
      → leb now (g.at + prune_interval_ms) ≡ false
      → IsCovered now at none
  IsCovered-forgotten now at g (a, b) e =
      let next : at + interval ≤ now = ground arith in
      let more = div_mono (at + interval) now interval pos next in
      (omega arith, omega (arith, more, add-div_right at pos))

  abbrev pub Covers : (now : ℕ) → List LastSample → DeviceSample → Type 0
  Covers now slots y = IsCovered now y.at (find last_device y.device_id slots)

  pub keep-IsApart :
      (p : DeviceSample → Bool) (xs : List DeviceSample)
      → IsApart interval xs
      → IsApart interval (keep p xs)
  keep-IsApart p [] h = tt
  keep-IsApart p (x ∷ xs) (a, h) = elim (Bool-cases (p x)) [
    | inl hit ↦ rw hit (keep-All _ p xs a, keep-IsApart p xs h)
    | inr miss ↦ rw miss (keep-IsApart p xs h)
  ]

  -- What holds of a history after its last step, at `now`.
  abbrev pub Holds : ℕ → History → Type 0
  Holds now h =
      IsApart interval h.samples
      × All (Covers now h.last_sample_at) h.samples
      × IsKeyed last_device h.last_sample_at

  pub Holds-later : (now later : ℕ) (h : History) → now ≤ later → Holds now h → Holds later h
  Holds-later now later h le (a, c, u) = (
    a,
    All-map _ _ h.samples
        (λ y. IsCovered-later now later y.at (find last_device y.device_id h.last_sample_at) le) c,
    u,
  )

  module _ (now later d : ℕ) (le : now ≤ later) (h : History) (holds : Holds now h)
      (free : is_taken later interval (find last_device d h.last_sample_at) ≡ false) where
    apart_new :
        (y : DeviceSample)
        → Covers now h.last_sample_at y
        → y.device_id ≡ d
        → y.at / interval < later / interval
    apart_new y c e =
        IsCovered-past later y.at (find last_device d h.last_sample_at)
          (IsCovered-later now later y.at (find last_device d h.last_sample_at) le
            (subst (λ k. IsCovered now y.at (find last_device k h.last_sample_at)) e c))
          free

    still :
        (y : DeviceSample) (slots : List LastSample)
        → find last_device y.device_id slots ≡ find last_device y.device_id h.last_sample_at
        → Covers now h.last_sample_at y
        → Covers later slots y
    still y slots e c =
        subst (λ o. IsCovered later y.at o) (sym e)
          (IsCovered-later now later y.at (find last_device y.device_id h.last_sample_at) le c)

    claimed-Covers :
        (y : DeviceSample)
        → Covers now h.last_sample_at y
        → Covers later (claim d later h.last_sample_at) y
    claimed-Covers y c = elim (Bool-cases (y.device_id == d)) [
      | inl hit ↦
          let up = IsCovered-at now y.at (find last_device y.device_id h.last_sample_at) c in
          subst (λ o. IsCovered later y.at o)
            (sym (find-claim_same d y.device_id later h.last_sample_at hit))
            (omega arith, omega arith)
      | inr miss ↦
          still y (claim d later h.last_sample_at)
            (find-claim_other d y.device_id later h.last_sample_at miss
              ∙ find-forget_other d y.device_id h.last_sample_at miss)
            c
    ]

    forgotten-Covers :
        (y : DeviceSample)
        → Covers now h.last_sample_at y
        → Covers later (forget_sample d (claim d later h.last_sample_at)) y
    forgotten-Covers y c = elim (Bool-cases (y.device_id == d)) [
      | inl hit ↦
          let e : y.device_id ≡ d = (==_iff _ _).0 hit in
          let up = IsCovered-at now y.at (find last_device y.device_id h.last_sample_at) c in
          subst
            (λ k.
              IsCovered later y.at
                (find last_device k (forget_sample d (claim d later h.last_sample_at))))
            (sym e)
            (subst (λ o. IsCovered later y.at o)
              (sym (find-forget_same d (claim d later h.last_sample_at)))
              (omega arith, apart_new y c e))
      | inr miss ↦
          still y (forget_sample d (claim d later h.last_sample_at))
            (find-forget_other d y.device_id (claim d later h.last_sample_at) miss
              ∙ find-claim_other d y.device_id later h.last_sample_at miss
              ∙ find-forget_other d y.device_id h.last_sample_at miss)
            c
    ]

    claimed-IsKeyed : IsKeyed last_device (claim d later h.last_sample_at)
    claimed-IsKeyed =
        (find-forget_same d h.last_sample_at, keep-IsKeyed last_device _ h.last_sample_at holds.2)

    pub neither-Holds :
        (m : BeatMetrics)
        → Holds later (
            insert_samples neither d later m
              (record h { last_sample_at = claim d later h.last_sample_at }))
    unfolding insert_samples
    neither-Holds m = (
      holds.0,
      All-map _ _ h.samples forgotten-Covers holds.1,
      keep-IsKeyed last_device (λ x. not (x.device_id == d)) (claim d later h.last_sample_at)
          claimed-IsKeyed,
    )

    pub both-Holds :
        (m : BeatMetrics)
        → Holds later (
            insert_samples both d later m
              (record h { last_sample_at = claim d later h.last_sample_at }))
    unfolding insert_samples
    both-Holds m = (
      (All-map _ _ h.samples apart_new holds.1, holds.0),
      (
        subst (λ o. IsCovered later later o)
            (sym (find-claim_same d d later h.last_sample_at (same d))) (omega arith, omega arith),
        All-map _ _ h.samples claimed-Covers holds.1,
      ),
      claimed-IsKeyed,
    )

  pub pruned-Covers :
      (now : ℕ) (slots : List LastSample) (y : DeviceSample)
      → IsKeyed last_device slots
      → Covers now slots y
      → Covers now (keep (λ l. leb now (l.at + prune_interval_ms)) slots) y
  pruned-Covers now slots y u c = elim (Option-cases (find last_device y.device_id slots)) [
    | inl nothing ↦
        subst (λ o. IsCovered now y.at o)
          (nothing
            ∙ sym (
                find-keep_none last_device (λ l. leb now (l.at + prune_interval_ms)) y.device_id
                  slots nothing))
          c
    | inr (g, found) ↦
        let kept =
          find-keep_held (λ l. leb now (l.at + prune_interval_ms)) y.device_id slots u found in
        let c' : IsCovered now y.at (some g) = subst (λ o. IsCovered now y.at o) found c in
        subst (λ o. IsCovered now y.at o) (sym kept)
          (if_either (λ o. IsCovered now y.at o) (leb now (g.at + prune_interval_ms)) (some g) none
            (λ e. c') (λ e. IsCovered-forgotten now y.at g c' e))
  ]
