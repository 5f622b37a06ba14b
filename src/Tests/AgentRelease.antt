-- ===== src/Tests/AgentRelease.antt =====
-- A release for one box whose agent is old.
use magnemite.Prelude.{◌≡◌, ◌≤◌, refl, true, none, some, length, [], ◌∷◌, IsKeyed, arith}
use magnemite.AgentRelease.{
  Build, Release, Agent, Order, Updates, consider, offer, reap_in_flight, build_key_for_abi,
  find_build, maybe_update_agent,
}
use magnemite.AgentRelease.Slots.{
  starts, next, offers, slot_key, Turns-IsWithin, maybe_update_agent_again, overlapping_offers,
}

abbrev build : Build
build = record { url = "/files/agent/2/arm64"; sha256 = "ab" }

abbrev release : Release
release = record { version = "2"; builds = ("arm64", build) ∷ [] }

abbrev agent : Agent
agent = record { id = 5; abi = some "arm64-v8a"; agent_version = some "1"; current_job_id = none }

abbrev order : Order
order = record { device_id = 5; build = build; version = "2" }

abbrev stuck : Updates
stuck = record {
  in_flight = record { device_id = 5; started_at = 0 } ∷ [];
  attempts = [];
  orders = [];
  bus = [];
}

abbrev fresh : Updates
fresh = record stuck { in_flight = [] }

Turns-IsWithin_example :
    (length (offer 9 3 release build agent fresh).0.in_flight ≤ 3)
    × IsKeyed slot_key (offer 9 3 release build agent fresh).0.in_flight
Turns-IsWithin_example =
    Turns-IsWithin {limit = 3}
      (next (starts {u = fresh} refl) (offers 9 3 release build agent (omega arith)))

maybe_update_agent_again_example :
    ((maybe_update_agent 600001 1 (some release) agent stuck).1 ≡ true)
    × ((maybe_update_agent 600001 1 (some release) agent stuck).0.orders ≡ order ∷ [])
unfolding build_key_for_abi find_build
maybe_update_agent_again_example =
    maybe_update_agent_again 600001 1 release build agent stuck refl refl refl ((λ e. refl), tt)
      (omega arith)

overlapping_offers_example :
    let again = consider 9 release agent (consider 9 release agent fresh).0 in
    let first = offer 9 3 release build agent again.0 in
    let second = offer 10 3 release build agent first.0 in
    (again.1 ≡ some build)
    × (first.1 ≡ true)
    × (second.1 ≡ true)
    × (second.0.orders ≡ order ∷ order ∷ again.0.orders)
unfolding consider build_key_for_abi find_build reap_in_flight
overlapping_offers_example = overlapping_offers 9 10 3 release build agent fresh refl (omega arith)
