-- ===== src/Rollup/Stable.antt =====
-- Rolling a rollout up twice does no more than once.
use magnemite.Prelude.{
  ℕ, ◌≡◌, ◌⊎◌, inl, inr, sym, ap, ◌∙◌, Bool-cases, Option-cases, true, false, some, none, arith,
  List, keep, ◌==◌,
}
use magnemite.Store.{Job, Rollout, Db, find_rollout}
use magnemite.Rollup.{decide, commit, recompute_rollout, is_closed, is_changed, set_rollup, jobs_of}
use magnemite.Rollup.Frames.{jobs-recompute_rollout}
use magnemite.Rollup.Gate.{settled, find_rollout-recompute}

settled_stable :
    (now : ℕ) (r : Rollout) (jobs : List Job)
    → is_closed r.status ≡ false
    → is_changed r (decide r jobs) ≡ true
    → (is_closed (set_rollup now (decide r jobs) r).status ≡ true)
      ⊎ (is_changed
            (set_rollup now (decide r jobs) r)
            (decide (set_rollup now (decide r jobs) r) jobs)
          ≡ false)
unfolding decide
settled_stable now r jobs o c = ground arith

recompute_absent :
    (now k : ℕ) (db : Db) → find_rollout k db ≡ none → recompute_rollout now k db ≡ db
unfolding recompute_rollout
recompute_absent now k db e = rw (e, recompute_rollout)

recompute_settled :
    (now k : ℕ) (db : Db) (r : Rollout)
    → find_rollout k db ≡ some r
    → (is_closed r.status ≡ true) ⊎ (is_changed r (decide r (jobs_of k db)) ≡ false)
    → recompute_rollout now k db ≡ db
unfolding recompute_rollout commit
recompute_settled now k db r e (inl c) = rw (e, recompute_rollout) (rw c)
recompute_settled now k db r e (inr u) = elim (Bool-cases (is_closed r.status)) [
  | inl c ↦ rw (e, recompute_rollout) (rw c)
  | inr o ↦ rw (e, recompute_rollout) (rw o (rw u))
]

idempotent_of_same :
    (t₁ t₂ k : ℕ) (db : Db)
    → ((t : ℕ) → recompute_rollout t k db ≡ db)
    → recompute_rollout t₂ k (recompute_rollout t₁ k db) ≡ recompute_rollout t₁ k db
idempotent_of_same t₁ t₂ k db same = ap (recompute_rollout t₂ k) (same t₁) ∙ same t₂ ∙ sym (same t₁)

jobs_of-recompute : (now k : ℕ) (db : Db) → jobs_of k (recompute_rollout now k db) ≡ jobs_of k db
jobs_of-recompute now k db =
    ap (keep (λ (j : Job). j.rollout_id == k)) (jobs-recompute_rollout now k db)

idempotent_of_changed :
    (t₁ t₂ k : ℕ) (db : Db) (r : Rollout)
    → find_rollout k db ≡ some r
    → is_closed r.status ≡ false
    → is_changed r (decide r (jobs_of k db)) ≡ true
    → recompute_rollout t₂ k (recompute_rollout t₁ k db) ≡ recompute_rollout t₁ k db
unfolding settled
idempotent_of_changed t₁ t₂ k db r e o c =
    let r' = set_rollup t₁ (decide r (jobs_of k db)) r in
    let found : find_rollout k (recompute_rollout t₁ k db) ≡ some r' =
      find_rollout-recompute t₁ k db r e o ∙ rw c in
    recompute_settled t₂ k (recompute_rollout t₁ k db) r' found
      (rw (jobs_of-recompute t₁ k db) (settled_stable t₁ r (jobs_of k db) o c))

-- Whoever rolls a rollout up a second time, and whenever, changes nothing and publishes nothing:
-- the status that the first time wrote asks for no further change by the same jobs.
pub recompute_rollout_idempotent :
    (t₁ t₂ k : ℕ) (db : Db)
    → recompute_rollout t₂ k (recompute_rollout t₁ k db) ≡ recompute_rollout t₁ k db
recompute_rollout_idempotent t₁ t₂ k db = elim (Option-cases (find_rollout k db)) [
  | inl e ↦ idempotent_of_same t₁ t₂ k db (λ t. recompute_absent t k db e)
  | inr (r, e) ↦ elim (Bool-cases (is_closed r.status)) [
    | inl c ↦ idempotent_of_same t₁ t₂ k db (λ t. recompute_settled t k db r e (inl c))
    | inr o ↦ elim (Bool-cases (is_changed r (decide r (jobs_of k db)))) [
      | inr u ↦ idempotent_of_same t₁ t₂ k db (λ t. recompute_settled t k db r e (inr u))
      | inl c ↦ idempotent_of_changed t₁ t₂ k db r e o c
    ]
  ]
]
