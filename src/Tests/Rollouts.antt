-- ===== src/Tests/Rollouts.antt =====
-- Making and cancelling a rollout, and the hub as a whole, at concrete rows.
use magnemite.Prelude.{
  sort, insert_sorted, ◌≡◌, refl, find, not, ◌==◌, keep, count_if, arith, [], List,
}
use magnemite.Store.{Job, Rollout, Db}
use magnemite.Store.Laws.{IsSound}
use magnemite.Rollouts.{
  is_among, returned, create_rollout, make_rollout, select_devices, cancel_rollout,
}
use magnemite.Rollouts.Creation.{IsFresh, IsMade}
use magnemite.Rollouts.Plan.{IsPlanned, create_rollout-IsPlanned}
use magnemite.Rollouts.Cancelling.{is_open, cancel_rollout_ends}
use magnemite.Hub.{apply, create, run_tick}
use magnemite.Hub.Reachable.{start, step, empty_db, Reaches-IsSound}
use magnemite.Tests.Samples.{db, now, world, fleet, atlas, atlas_two, input, surroundings}

abbrev out : Db × Rollout × List Job
out = make_rollout surroundings input atlas atlas_two (select_devices surroundings [] fleet) db

created : create_rollout surroundings input fleet db ≡ returned out
unfolding create_rollout find select_devices is_among sort insert_sorted
created = refl

keys-IsFresh : IsFresh surroundings db
unfolding find
keys-IsFresh = record {
  no_rollout = refl;
  jobs_below = (omega arith, (omega arith, (omega arith, tt)));
}

create_rollout-IsPlanned_example :
    (m : IsMade surroundings input fleet db out) × IsPlanned surroundings input fleet m.target
      m.version db out
unfolding find
create_rollout-IsPlanned_example =
    create_rollout-IsPlanned surroundings input fleet db out (refl, (refl, (refl, tt))) created

cancel_rollout_ends_example :
    (count_if (is_open 1) (cancel_rollout now 1 db).0.jobs ≡ 0)
    × (keep (λ j. not (j.rollout_id == 1)) (cancel_rollout now 1 db).0.jobs
        ≡ keep (λ j. not (j.rollout_id == 1)) db.jobs)
    × ((cancel_rollout now 1 db).1 ≡ count_if (is_open 1) db.jobs)
cancel_rollout_ends_example = cancel_rollout_ends now 1 db

empty-IsFresh : IsFresh surroundings empty_db
unfolding find
empty-IsFresh = record { no_rollout = refl; jobs_below = tt }

abbrev made_db : Db
made_db = apply now fleet (create surroundings input) empty_db

Reaches-IsSound_example : IsSound (apply now fleet (run_tick world 5 600) made_db)
Reaches-IsSound_example = Reaches-IsSound (apply now fleet (run_tick world 5 600) made_db) (
    step now fleet (run_tick world 5 600)
      (step now fleet (create surroundings input) start (empty-IsFresh, (omega arith, tt))) tt)
