-- ===== src/Hub/Reachable.antt =====
-- Every database that the hub reaches from an empty one is sound.
use magnemite.Prelude.{ℕ, ◌≡◌, refl, true, [], All}
use magnemite.Fleet.{Fleet}
use magnemite.Store.{Db}
use magnemite.Store.Laws.{IsSound}
use magnemite.Jobs.Invariant.{retry_job-IsSound, retry_failed_jobs-IsSound, cancel_job-IsSound}
use magnemite.Rollouts.{Result, returned, thrown, create_rollout, resume_rollout}
use magnemite.Rollouts.Creation.{IsFresh, Allows, create_rollout-IsSound}
use magnemite.Rollouts.Invariant.{cancel_rollout-IsSound, resume_rollout-IsSound}
use magnemite.Session.Ownership.{names_active, handle-IsSound}
use magnemite.Scheduler.Invariant.{tick-IsSound}
use magnemite.Hub.{
  or_same, Command, agent_message, create, cancel, resume, retry_failed, retry, cancel_one,
  run_tick, apply,
}

-- What the outside owes each command: active states in progress reports, and fresh keys and an
-- attempt to a new rollout.
abbrev pub IsAllowed : Fleet → Db → Command → Type 0
IsAllowed fleet db (agent_message device_id m) = names_active m ≡ true
IsAllowed fleet db (create w input) = IsFresh w db × All (Allows input) fleet.targets
IsAllowed fleet db _ = Unit

abbrev pub empty_db : Db
empty_db = record { jobs = []; rollouts = []; events = []; bus = [] }

-- The fleet and the clock may differ from one command to the next.
pub data Reaches : Db → Type 0 where
  start : Reaches empty_db
  step :
      {db : Db} (now : ℕ) (fleet : Fleet) (c : Command)
      → Reaches db
      → IsAllowed fleet db c
      → Reaches (apply now fleet c db)

apply-IsSound :
    (now : ℕ) (fleet : Fleet) (c : Command) (db : Db)
    → IsAllowed fleet db c
    → IsSound db
    → IsSound (apply now fleet c db)
unfolding apply
apply-IsSound now fleet (agent_message device_id m) db a h = handle-IsSound now device_id m db a h
apply-IsSound now fleet (create w input) db (fresh, allows) h =
    made (create_rollout w input fleet db) refl
  where
    made :
        (r : _)
        → create_rollout w input fleet db ≡ r
        → IsSound (elim r [ returned out ↦ out.0 | thrown e ↦ db ])
    made (returned out) e = create_rollout-IsSound w input fleet db out e fresh allows h
    made (thrown x) e = h
apply-IsSound now fleet (cancel k) db a h = cancel_rollout-IsSound now k db h
apply-IsSound now fleet (resume k) db a h = resumed (resume_rollout now k db) refl
  where
    resumed : (r : Result Db) → resume_rollout now k db ≡ r → IsSound (or_same db r)
    resumed (returned db') e = resume_rollout-IsSound now k db db' e h
    resumed (thrown x) e = h
apply-IsSound now fleet (retry_failed k) db a h = retry_failed_jobs-IsSound now k db h
apply-IsSound now fleet (retry k) db a h = retry_job-IsSound now k db h
apply-IsSound now fleet (cancel_one k) db a h = cancel_job-IsSound now k db h
apply-IsSound now fleet (run_tick w n t) db a h = tick-IsSound w fleet n t db h

-- Every database that the hub reaches from an empty one, by messages of boxes about active states,
-- new rollouts under fresh keys that allow an attempt, the operator's actions and ticks of the
-- scheduler, in any order, is sound: the keys of its jobs are distinct, and each job has a
-- progress of at most 100, a rollout that allows an attempt, no more attempts than that allows
-- (the one that it is queued for included), and an end date exactly when its state is terminal.
-- The return of a box (reconcileJobs) is not among the steps.
pub Reaches-IsSound : (db : Db) → Reaches db → IsSound db
Reaches-IsSound _ start = record { keyed = tt; sound = tt }
Reaches-IsSound _ (step {db} now fleet c r a) =
    apply-IsSound now fleet c db a (Reaches-IsSound db r)
