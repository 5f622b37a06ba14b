-- ===== src/Queue/Laws.antt =====
-- The candidates of a tick are distinct jobs, each as the table holds it, with the rows that belong
-- to it.
use mathlib.Core.List.{filter_map}
use magnemite.Prelude.{
  ℕ, ◌≡◌, inl, inr, sym, subst, [], ◌∷◌, ap, true, some, arith, List, All, keep, keep-All,
  keep-All_self, keep-IsKeyed, keyed-AreHeld, take-All, take-IsKeyed, sort-All, sort-IsKeyed,
  filter_map-All, filter_map-IsKeyed, IsKeyed, find, Option-cases,
}
use magnemite.Fleet.{Fleet, find_device, find_version, find_target}
use magnemite.Store.{Job, Db, find_job, find_rollout, job_key}
use magnemite.Queue.{
  Candidate, join, group_of, is_candidate, candidates, candidate_slots, queue_order,
}

abbrev pub candidate_key : Candidate → ℕ
candidate_key c = c.job.id

pub record IsJoined (fleet : Fleet) (db : Db) (c : Candidate) : Type 0 where
  pub device : find_device c.job.device_id fleet ≡ some c.device
  pub group : c.group ≡ group_of fleet c.device
  pub rollout : find_rollout c.job.rollout_id db ≡ some c.rollout

pub record IsReady (now : ℕ) (fleet : Fleet) (db : Db) (c : Candidate) : Type 0 where
  pub held : find_job c.job.id db ≡ some c.job
  pub joined : IsJoined fleet db c
  pub eligible : is_candidate now c ≡ true

join_lem :
    (fleet : Fleet) (db : Db) (j : Job) (c : Candidate)
    → join fleet db j ≡ some c
    → (c.job ≡ j) × IsJoined fleet db c
unfolding join
join_lem fleet db j c e = elim (Option-cases (find_device j.device_id fleet)) [
  | inl n ↦ absurd (ground arith)
  | inr (d, ed) ↦ elim (Option-cases (find_rollout j.rollout_id db)) [
    | inl n ↦ absurd (ground arith)
    | inr (r, er) ↦ elim (Option-cases (find_version r.app_version_id fleet)) [
      | inl n ↦ absurd (ground arith)
      | inr (v, ev) ↦ elim (Option-cases (find_target v.app_target_id fleet)) [
        | inl n ↦ absurd (ground arith)
        | inr (t, et) ↦ (
          ground arith,
          record { device = ground arith; group = ground arith; rollout = ground arith },
        )
      ]
    ]
  ]
]

abbrev IsRead : Fleet → Db → Candidate → Type 0
IsRead fleet db c = (find_job c.job.id db ≡ some c.job) × IsJoined fleet db c

IsRead-of_join :
    (fleet : Fleet) (db : Db) (j : Job) (c : Candidate)
    → find job_key j.id db.jobs ≡ some j
    → join fleet db j ≡ some c
    → IsRead fleet db c
IsRead-of_join fleet db j c held e =
    let (same, joined) = join_lem fleet db j c e in
    (subst (λ i. find_job i.id db ≡ some i) (sym same) held, joined)

module _ (now : ℕ) (fleet : Fleet) (db : Db) (keyed : IsKeyed job_key db.jobs) where
  pub candidates-IsKeyed : IsKeyed candidate_key (candidates now fleet db)
  unfolding candidates
  candidates-IsKeyed = take-IsKeyed candidate_key candidate_slots _ (
      sort-IsKeyed candidate_key queue_order _ (
        keep-IsKeyed candidate_key (is_candidate now) _ (
          filter_map-IsKeyed (join fleet db) job_key candidate_key
            (λ j c e. ap (λ (i : Job). i.id) (join_lem fleet db j c e).0) db.jobs keyed)))

  joined-All : All (IsRead fleet db) (filter_map (join fleet db) db.jobs)
  joined-All =
      filter_map-All (join fleet db) (λ (j : Job). find job_key j.id db.jobs ≡ some j)
        (IsRead fleet db) db.jobs (λ j c. IsRead-of_join fleet db j c)
        (keyed-AreHeld job_key db.jobs keyed)

  IsReady-of_kept :
      (cs : List Candidate)
      → All (IsRead fleet db) cs
      → All (λ c. is_candidate now c ≡ true) cs
      → All (IsReady now fleet db) cs
  IsReady-of_kept [] h k = tt
  IsReady-of_kept (c ∷ cs) ((held, joined), h) (e, k) =
      (record { held = held; joined = joined; eligible = e }, IsReady-of_kept cs h k)

  pub candidates-IsReady : All (IsReady now fleet db) (candidates now fleet db)
  unfolding candidates
  candidates-IsReady =
      let rows = filter_map (join fleet db) db.jobs in
      take-All _ candidate_slots _ (
        sort-All queue_order (IsReady now fleet db) _ (
          IsReady-of_kept (keep (is_candidate now) rows)
            (keep-All (IsRead fleet db) (is_candidate now) rows joined-All)
            (keep-All_self (is_candidate now) rows)))
