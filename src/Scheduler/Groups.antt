-- ===== src/Scheduler/Groups.antt =====
-- The cap of a device group.
use magnemite.Prelude.{
  ℕ, ◌+◌, ◌≤◌, ◌<◌, ◌≡◌, ◌==◌, max, refl, sym, ap, ◌∙◌, inl, inr, Bool-cases, Bool, true, false,
  Option, some, none, arith, IsKeyed, List, [], ◌∷◌, if◌then◌else◌, ◌&&◌, count_if, ==_iff,
}
use magnemite.Fleet.{Fleet, DeviceGroup, find_group}
use magnemite.Store.{Job, Db, job_key, find_job, is_active}
use magnemite.Queue.{Candidate, group_of}
use magnemite.Queue.Laws.{IsReady}
use magnemite.Install.{World}
use magnemite.Scheduler.{
  set_dispatched, Counts, Loop, start_loop, is_full, group_full, dispatch_queued, count_groups,
  group_id_of, add_group,
}
use magnemite.Scheduler.Steps.{Turn}
use magnemite.Scheduler.Counted.{Turn-Counted, unskipped, dispatch_queued_inv}

abbrev is_key : ℕ → Option ℕ → Bool
is_key g none = false
is_key g (some i) = g == i

-- An active job of a device in the group.
pub in_group : Fleet → ℕ → Job → Bool
in_group fleet g j = is_active j.state && is_key g (group_id_of fleet j)

add_group_lem :
    (o : Option ℕ) (m : Counts) (g : ℕ) → add_group o m g ≡ (if is_key g o then m g + 1 else m g)
add_group_lem none m g = refl
add_group_lem (some i) m g = refl

count_groups_lem :
    (fleet : Fleet) (g : ℕ) (js : List Job)
    → count_groups fleet js g ≡ count_if (in_group fleet g) js
unfolding count_groups in_group
count_groups_lem fleet g [] = refl
count_groups_lem fleet g (j ∷ js) = ground (
  arith,
  count_groups_lem fleet g js,
  add_group_lem (group_id_of fleet j) (count_groups fleet js) g,
)

idle : (fleet : Fleet) (g : ℕ) (j : Job) → is_active j.state ≡ false → in_group fleet g j ≡ false
unfolding in_group
idle fleet g j h = ground arith

key_some : (g : ℕ) (o : Option ℕ) → is_key g o ≡ true → o ≡ some g
key_some g none h = cc
key_some g (some i) h = ap some (sym ((==_iff g i).0 h))

module _ (w : World) (fleet : Fleet) (db : Db) (keyed : IsKeyed job_key db.jobs) (g : ℕ)
    (row : DeviceGroup) (limit : ℕ) (found : find_group g fleet ≡ some row)
    (cap : row.max_concurrency ≡ some limit) where
  abbrev bound : ℕ
  bound = max limit (count_groups fleet db.jobs g)

  abbrev WithinGroup : Loop → Type 0
  WithinGroup s =
      (count_if (in_group fleet g) s.db.jobs ≤ s.group_active g) × (s.group_active g ≤ bound)

  group_room :
      (c : Candidate) (s : Loop)
      → IsReady w.now fleet db c
      → c.device.group_id ≡ some g
      → group_full s.group_active c ≡ false
      → s.group_active g < limit
  unfolding group_of
  group_room c s ready here free =
      let own : c.group ≡ some row = ready.joined.group ∙ rw here found in
      below (s.group_active g) (rw (here, own) at free)
    where
      below : (n : ℕ) → is_full row.max_concurrency n ≡ false → n < limit
      below n h = ground arith

  marked :
      (now : ℕ) (c : Candidate)
      → IsReady now fleet db c
      → in_group fleet g (set_dispatched now c.job c.job) ≡ is_key g c.device.group_id
  unfolding in_group group_id_of
  marked now c ready = rw ready.joined.device

  Turn-WithinGroup :
      (c : Candidate) (s s' : Loop)
      → IsReady w.now fleet db c
      → IsKeyed job_key s.db.jobs
      → find_job c.job.id s.db ≡ some c.job
      → 0 < s.capacity
      → Turn w c s s'
      → WithinGroup s
      → WithinGroup s'
  Turn-WithinGroup c s s' ready u e _ t q =
      elim (Turn-Counted w (in_group fleet g) (idle fleet g) t u e) [
        | inl (n, _, gg, _) ↦
            let same : s'.group_active g ≡ s.group_active g = ap (λ (m : Counts). m g) gg in
            (omega (arith, same), omega (arith, same))
        | inr (free, n, _, gg, _) ↦
            let counted : s'.group_active g ≡ add_group c.device.group_id s.group_active g =
              ap (λ (m : Counts). m g) gg in
            let own = add_group_lem c.device.group_id s.group_active g in
            let mark = marked w.now c ready in
            elim (Bool-cases (is_key g c.device.group_id)) [
              | inl hit ↦
                  let room =
                    group_room c s ready (key_some g c.device.group_id hit)
                      (unskipped w s c free).3 in
                  ground arith
              | inr miss ↦ ground arith
            ]
      ]

  -- The cap of a device group that has one: a tick never brings the active jobs of its boxes above
  -- the cap, or above what they were if that was more already.
  pub dispatch_queued_group_cap :
      (max_jobs : ℕ)
      → count_groups fleet (dispatch_queued w fleet max_jobs db).jobs g
        ≤ max limit (count_groups fleet db.jobs g)
  unfolding dispatch_queued
  dispatch_queued_group_cap max_jobs =
      let before = count_groups_lem fleet g db.jobs in
      let (n, c) =
        dispatch_queued_inv w fleet db keyed WithinGroup Turn-WithinGroup
          (start_loop fleet max_jobs db) refl (omega (arith, before), omega arith) in
      omega (arith, n, c, count_groups_lem fleet g (dispatch_queued w fleet max_jobs db).jobs)
