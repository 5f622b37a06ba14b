-- ===== src/Scheduler/LoopRule.antt =====
-- What every turn of the dispatch loop keeps, the loop keeps: each candidate is still as it was read
-- when its turn comes.
use magnemite.Prelude.{
  ℕ, ◌<◌, ◌≡◌, ◌==◌, refl, inl, inr, Bool-cases, some, none, arith, update, find, IsKeyed,
  update-IsKeyed, All, List, [], ◌∷◌, ne-of_find-none, tail-find-none, find-update_ne, ◌∙◌,
}
use magnemite.Store.{Job, job_key, find_job}
use magnemite.Queue.{Candidate}
use magnemite.Queue.Laws.{candidate_key}
use magnemite.Install.{World}
use magnemite.Scheduler.{Loop, dispatch_one, dispatch_each, set_dispatched, set_undispatched}
use magnemite.Scheduler.Steps.{Turn, passed, went, came_back, dispatch_one-Turn}

-- The jobs of the candidates that are still to come are as they were read.
abbrev pub AreRead : List Job → List Candidate → Type 0
AreRead jobs cs = All (λ c. find job_key c.job.id jobs ≡ some c.job) cs

update-AreRead :
    (k : ℕ) (f : Job → Job) (jobs : List Job) (cs : List Candidate)
    → ((j : Job) → (f j).id ≡ j.id)
    → find candidate_key k cs ≡ none
    → AreRead jobs cs
    → AreRead (update job_key k f jobs) cs
update-AreRead k f jobs [] same u h = tt
update-AreRead k f jobs (c ∷ cs) same u (e, h) = (
  find-update_ne job_key k f same c.job.id jobs (ne-of_find-none candidate_key k c cs u) ∙ e,
  update-AreRead k f jobs cs same (tail-find-none candidate_key k c cs u) h,
)

module _ (w : World) where
  Turn-IsKeyed :
      {c : Candidate} {s s' : Loop}
      → Turn w c s s'
      → IsKeyed job_key s.db.jobs
      → IsKeyed job_key s'.db.jobs
  Turn-IsKeyed {c} {s} (passed j _ _ _) u = rw j u
  Turn-IsKeyed {c} {s} (went _ _ j _ _ _) u =
      rw j (update-IsKeyed job_key c.job.id (set_dispatched w.now c.job) (λ i. refl) s.db.jobs u)
  Turn-IsKeyed {c} {s} (came_back _ _ j _ _ _) u = rw j (
      update-IsKeyed job_key c.job.id (set_undispatched c.job) (λ i. refl) _
        (update-IsKeyed job_key c.job.id (set_dispatched w.now c.job) (λ i. refl) s.db.jobs u))

  Turn-AreRead :
      {c : Candidate} {s s' : Loop} (cs : List Candidate)
      → Turn w c s s'
      → find candidate_key c.job.id cs ≡ none
      → AreRead s.db.jobs cs
      → AreRead s'.db.jobs cs
  Turn-AreRead {c} {s} cs (passed j _ _ _) u h = rw j h
  Turn-AreRead {c} {s} cs (went _ _ j _ _ _) u h =
      rw j (update-AreRead c.job.id (set_dispatched w.now c.job) s.db.jobs cs (λ i. refl) u h)
  Turn-AreRead {c} {s} cs (came_back _ _ j _ _ _) u h = rw j (
      update-AreRead c.job.id (set_undispatched c.job) _ cs (λ i. refl) u
        (update-AreRead c.job.id (set_dispatched w.now c.job) s.db.jobs cs (λ i. refl) u h))

  -- What every turn keeps, the loop keeps.
  pub dispatch_each_inv {ℓ κ} :
      (P : Loop → Type ℓ) (R : Candidate → Type κ)
      → ((c : Candidate) (s s' : Loop)
          → R c
          → IsKeyed job_key s.db.jobs
          → find_job c.job.id s.db ≡ some c.job
          → 0 < s.capacity
          → s' ≡ dispatch_one w c s
          → Turn w c s s'
          → P s
          → P s')
      → (cs : List Candidate) (s : Loop) → IsKeyed candidate_key cs
      → All R cs
      → IsKeyed job_key s.db.jobs
      → AreRead s.db.jobs cs
      → P s
      → P (dispatch_each w cs s)
  unfolding dispatch_each
  dispatch_each_inv P R step [] s u r k h p = p
  dispatch_each_inv P R step (c ∷ cs) s (u, us) (r, rs) k (e, h) p =
      elim (Bool-cases (s.capacity == 0)) [
        | inl z ↦ rw z p
        | inr n ↦
            let turn = dispatch_one-Turn w c s in
            rw n (
              dispatch_each_inv P R step cs (dispatch_one w c s) us rs (Turn-IsKeyed turn k)
                (Turn-AreRead cs turn u h) (step c s _ r k e (ground arith) refl turn p))
      ]
