-- ===== src/Rollup/Gate.antt =====
-- How the jobs of a rollout decide its status.
use magnemite.Prelude.{
  ℕ, ◌≡◌, ◌⊎◌, refl, inl, inr, sym, subst, if◌then◌else◌, Bool-cases, true, false, some, arith,
  Bool, List, keep, [], ◌∷◌, all, any, length, ltb, find-update_self, find, update, key-find,
}
use magnemite.Store.{
  Job, Rollout, Db, canary, paused, soaking, running, completed, find_rollout, rollout_key,
  update_rollout, publish, is_terminal, is_failed, is_success,
}
use magnemite.Rollup.{decide, commit, recompute_rollout, is_closed, is_changed, set_rollup, jobs_of}

-- The rollout as rolling it up leaves it.
unfoldable pub settled : ℕ → Rollout → List Job → Rollout
settled now r jobs = if is_changed r (decide r jobs) then set_rollup now (decide r jobs) r else r

pub find_rollout-recompute :
    (now k : ℕ) (db : Db) (r : Rollout)
    → find_rollout k db ≡ some r
    → is_closed r.status ≡ false
    → find_rollout k (recompute_rollout now k db) ≡ some (settled now r (jobs_of k db))
unfolding recompute_rollout commit settled publish update_rollout
find_rollout-recompute now k db r e o =
    let same : r.id ≡ k = key-find rollout_key k db.rollouts e in
    let v = decide r (jobs_of k db) in
    rw (e, recompute_rollout)
      (rw o (elim (Bool-cases (is_changed r v)) [
        | inl c ↦ rw c (
            subst
              (λ i.
                find rollout_key k (update rollout_key i (set_rollup now v) db.rollouts)
                ≡ some (set_rollup now v r))
              (sym same)
              (find-update_self rollout_key k (set_rollup now v) (λ row. refl) db.rollouts e))
        | inr c ↦ rw c e
      ]))

abbrev pub all_terminal : List Job → Bool
all_terminal = all (λ j. is_terminal j.state)

abbrev pub any_failed : List Job → Bool
any_failed = any (λ j. is_failed j.state)

abbrev pub any_success : List Job → Bool
any_success = any (λ j. is_success j.state)

-- Where a rollout in its canary phase goes, by its jobs and the canaries among them.
pub data Gate (now : ℕ) (jobs canaries : List Job) (r r' : Rollout) : Type 0 where
  waits :
      r' ≡ r
      → (canaries ≡ [])
        ⊎ (all_terminal canaries ≡ false)
        ⊎ ((any_failed canaries ≡ false) × (any_success canaries ≡ false))
      → all_terminal jobs ≡ false
      → Gate now jobs canaries r r'
  parks :
      r'.status ≡ paused
      → r'.finished_at ≡ r.finished_at
      → all_terminal canaries ≡ true
      → any_failed canaries ≡ true
      → Gate now jobs canaries r r'
  releases :
      r'.status ≡ (if ltb 0 r.soak_minutes then soaking else running)
      → r'.canary_passed_at ≡ some now
      → all_terminal canaries ≡ true
      → any_failed canaries ≡ false
      → any_success canaries ≡ true
      → all_terminal jobs ≡ false
      → Gate now jobs canaries r r'
  completes :
      r'.status ≡ completed
      → r'.finished_at ≡ some now
      → all_terminal jobs ≡ true
      → (canaries ≡ []) ⊎ (any_failed canaries ≡ false)
      → Gate now jobs canaries r r'

empty-or : (cs : List Job) → (cs ≡ []) ⊎ (ltb 0 (length cs) ≡ true)
empty-or [] = inl refl
empty-or (c ∷ cs) = inr (ground arith)

all_terminal-keep :
    (p : Job → Bool) (jobs : List Job)
    → all_terminal jobs ≡ true
    → all_terminal (keep p jobs) ≡ true
all_terminal-keep p [] e = refl
all_terminal-keep p (j ∷ js) e = ground (arith, all_terminal-keep p js)

module _ (now : ℕ) (r : Rollout) (jobs : List Job) (c : r.status ≡ canary) where
  abbrev canaries : List Job
  canaries = keep (λ j. j.is_canary) jobs

  settled_unfinished :
      all_terminal canaries ≡ true
      → any_failed canaries ≡ false
      → ltb 0 (length canaries) ≡ true
      → all_terminal jobs ≡ false
      → Gate now jobs canaries r (settled now r jobs)
  unfolding settled decide
  settled_unfinished d f n o = elim (Bool-cases (any_success canaries)) [
    | inl s ↦ releases (ground arith) (ground arith) d f s o
    | inr s ↦ waits (ground arith) (inr (inr (f, s))) o
  ]

  settled_nonempty : ltb 0 (length canaries) ≡ true → Gate now jobs canaries r (settled now r jobs)
  unfolding settled decide
  settled_nonempty n = elim (Bool-cases (all_terminal canaries)) [
    | inr d ↦
        let o : all_terminal jobs ≡ false =
          ground (arith, all_terminal-keep (λ j. j.is_canary) jobs) in
        waits (ground arith) (inr (inl d)) o
    | inl d ↦ elim (Bool-cases (any_failed canaries)) [
      | inl f ↦ parks (ground arith) (ground arith) d f
      | inr f ↦ elim (Bool-cases (all_terminal jobs)) [
        | inl done ↦ completes (ground arith) (ground arith) done (inr f)
        | inr o ↦ settled_unfinished d f n o
      ]
    ]
  ]

  settled-Gate : Gate now jobs canaries r (settled now r jobs)
  unfolding settled decide
  settled-Gate = elim (empty-or canaries) [
    | inr n ↦ settled_nonempty n
    | inl none_ ↦ elim (Bool-cases (all_terminal jobs)) [
      | inl done ↦ completes (ground arith) (ground arith) done (inl none_)
      | inr o ↦ waits (ground arith) (inl none_) o
    ]
  ]

-- Rolling up a rollout in its canary phase: while the canaries run it waits; one failed canary
-- parks it, before anything is released; without a failure one success releases the fleet, after
-- the soak if there is one; and it completes only when every job has ended.
pub recompute_rollout-Gate :
    (now k : ℕ) (db : Db) (r : Rollout)
    → find_rollout k db ≡ some r
    → r.status ≡ canary
    → (r' : Rollout) × (find_rollout k (recompute_rollout now k db) ≡ some r')
      × Gate now (jobs_of k db) (keep (λ j. j.is_canary) (jobs_of k db)) r r'
recompute_rollout-Gate now k db r e c = (
  settled now r (jobs_of k db),
  find_rollout-recompute now k db r e (ground arith),
  settled-Gate now r (jobs_of k db) c,
)
