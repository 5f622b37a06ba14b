-- ===== src/Rollouts/Canaries.antt =====
-- How many jobs of a new rollout are canaries: those of the devices that pickCanaries of rollouts.ts picks.
use magnemite.Prelude.{
  ℕ, zero, suc, ◌+◌, min, ◌≡◌, ◌==◌, ◌∙◌, refl, sym, ap, subst, inl, inr, arith, Bool, true, false,
  not, ◌||◌, Bool-cases, none, some, List, [], ◌∷◌, map, keep, take, sort, length, count_if, find,
  IsKeyed, AreHeld, keyed-AreHeld, keep-All, sort-All, take-All, keep-IsKeyed, sort-IsKeyed,
  take-IsKeyed, insert_sorted, if◌then◌else◌, ==_iff,
}
use magnemite.Fleet.{Device, AppTarget, AppVersion}
use magnemite.Store.{Job, JobState}
use magnemite.Rollouts.{
  Surroundings, is_among, is_up_to_date, is_skipped, new_job, new_jobs, pick_canaries, canary_order,
}

abbrev pub device_key : Device → ℕ
device_key d = d.id

length-map {ℓ κ} :
    {A : Type ℓ} {B : Type κ} (f : A → B) (xs : List A) → length (map f xs) ≡ length xs
length-map f [] = refl
length-map f (x ∷ xs) = ap suc (length-map f xs)

count_if-or {ℓ} :
    {A : Type ℓ} (p q : A → Bool)
    → ((x : A) → p x ≡ true → q x ≡ false)
    → (xs : List A) → count_if (λ x. p x || q x) xs ≡ count_if p xs + count_if q xs
count_if-or p q apart [] = refl
count_if-or p q apart (x ∷ xs) = ground (arith, apart x, count_if-or p q apart xs)

count_if-none :
    (k : ℕ) (ds : List Device) → find device_key k ds ≡ none → count_if (λ d. k == d.id) ds ≡ 0
unfolding find
count_if-none k [] e = refl
count_if-none k (d ∷ ds) e = ground (arith, count_if-none k ds)

count_if-key :
    (k : ℕ) (ds : List Device) {x : Device}
    → IsKeyed device_key ds
    → find device_key k ds ≡ some x
    → count_if (λ d. k == d.id) ds ≡ 1
unfolding find
count_if-key k [] u e = absurd (cc)
count_if-key k (d ∷ ds) (u, us) e = elim (Bool-cases (d.id == k)) [
  | inl hit ↦
      let same : d.id ≡ k = (==_iff d.id k).0 hit in
      let rest = count_if-none k ds (subst (λ i. find device_key i ds ≡ none) same u) in
      ground (arith, rest)
  | inr miss ↦ ground (arith, count_if-key k ds us (rw miss at e))
]

is_among-none :
    (k : ℕ) (xs : List Device)
    → find device_key k xs ≡ none
    → is_among k (map device_key xs) ≡ false
unfolding find is_among
is_among-none k [] e = refl
is_among-none k (x ∷ xs) e = ground (arith, is_among-none k xs)

count_if-among :
    (xs ds : List Device)
    → IsKeyed device_key xs
    → IsKeyed device_key ds
    → AreHeld device_key ds xs
    → count_if (λ d. is_among d.id (map device_key xs)) ds ≡ length xs
unfolding is_among
count_if-among [] ds u v h = nothing ds
  where
    nothing : (es : List Device) → count_if (λ d. false) es ≡ 0
    nothing [] = refl
    nothing (e ∷ es) = nothing es
count_if-among (x ∷ xs) ds (u, us) v (held, h) =
    count_if-or (λ d. x.id == d.id) (λ d. is_among d.id (map device_key xs))
      (λ d e.
        is_among-none d.id xs (subst (λ i. find device_key i xs ≡ none) ((==_iff x.id d.id).0 e) u))
      ds
    ∙ (λ i. count_if-key x.id ds v held i + count_if-among xs ds us v h i)
    ∙ omega arith

length-insert_sorted {ℓ} :
    {A : Type ℓ} (before : A → A → Bool) (a : A) (xs : List A)
    → length (insert_sorted before a xs) ≡ suc (length xs)
unfolding insert_sorted
length-insert_sorted before a [] = refl
length-insert_sorted before a (x ∷ xs) = ground (arith, length-insert_sorted before a xs)

length-sort {ℓ} :
    {A : Type ℓ} (before : A → A → Bool) (xs : List A) → length (sort before xs) ≡ length xs
unfolding sort
length-sort before [] = refl
length-sort before (x ∷ xs) =
    length-insert_sorted before x (sort before xs) ∙ ap suc (length-sort before xs)

length-keep {ℓ} : {A : Type ℓ} (p : A → Bool) (xs : List A) → length (keep p xs) ≡ count_if p xs
length-keep p [] = refl
length-keep p (x ∷ xs) = ground (arith, length-keep p xs)

length-take-min {ℓ} : {A : Type ℓ} (n : ℕ) (xs : List A) → length (take n xs) ≡ min n (length xs)
length-take-min zero xs = omega arith
length-take-min (suc n) [] = omega arith
length-take-min (suc n) (x ∷ xs) = omega (arith, length-take-min n xs)

module _ (w : Surroundings) (skip : Bool) (target : AppTarget) (version : AppVersion) where
  count_if-new_jobs :
      (canaries : List ℕ) (p : Job → Bool) (q : Device → Bool)
      → ((k : ℕ) (d : Device) → p (new_job w k canaries skip target version d) ≡ q d)
      → (k : ℕ) (ds : List Device)
      → count_if p (new_jobs w k canaries skip target version ds) ≡ count_if q ds
  unfolding new_jobs
  count_if-new_jobs canaries p q same k [] = refl
  count_if-new_jobs canaries p q same k (d ∷ ds) =
      rw (same k d, count_if-new_jobs canaries p q same (suc k) ds) refl

  module _ (count k : ℕ) (ds : List Device) (keyed : IsKeyed device_key ds) where
    abbrev eligible : List Device
    eligible = keep (λ d. not (is_up_to_date skip target version d)) ds

    abbrev picked : List Device
    picked = take count (sort (canary_order w) eligible)

    abbrev canaries : List ℕ
    canaries = pick_canaries w skip target version count ds

    abbrev jobs : List Job
    jobs = new_jobs w k canaries skip target version ds

    -- The jobs that are canaries are as many as the devices picked.
    pub canary_jobs-length : count_if (λ j. j.is_canary) jobs ≡ length canaries
    unfolding pick_canaries new_job
    canary_jobs-length =
        count_if-new_jobs canaries (λ j. j.is_canary) (λ d. is_among d.id canaries) (λ k d. refl) k
          ds
        ∙ count_if-among picked ds
            (take-IsKeyed device_key count _ (
              sort-IsKeyed device_key (canary_order w) eligible
                (keep-IsKeyed device_key _ ds keyed)))
            keyed
            (take-All _ count _ (
              sort-All (canary_order w) _ eligible
                (keep-All _ _ ds (keyed-AreHeld device_key ds keyed))))
        ∙ sym (length-map device_key picked)

    -- They are as many as asked for, or all that are not skipped, if these are fewer.
    pub canary_jobs-min :
        count_if (λ j. j.is_canary) jobs ≡ min count (count_if (λ j. not (is_skipped j.state)) jobs)
    unfolding pick_canaries new_job
    canary_jobs-min =
        canary_jobs-length
        ∙ length-map device_key picked
        ∙ length-take-min count (sort (canary_order w) eligible)
        ∙ ap (min count) (
            length-sort (canary_order w) eligible
            ∙ length-keep _ ds
            ∙ sym (
                count_if-new_jobs canaries (λ j. not (is_skipped j.state))
                  (λ d. not (is_up_to_date skip target version d))
                  (λ k d. row (is_up_to_date skip target version d)) k ds))
      where
        row :
            (b : Bool) → not (is_skipped (if b then JobState.skipped else JobState.queued)) ≡ not b
        row true = refl
        row false = refl
