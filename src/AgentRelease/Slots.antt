-- ===== src/AgentRelease/Slots.antt =====
-- The slots of agentRelease.ts, whatever the order in which the two halves of `maybeUpdateAgent` come.
use magnemite.Prelude.{
  ℕ, suc, ◌+◌, ◌≤◌, ◌<◌, ◌==◌, ◌≡◌, refl, ap, inl, inr, Bool-cases, Option-cases, if_either, leb,
  if◌then◌else◌, Bool, true, false, Option, none, some, is_some, or_else, String, List, [], ◌∷◌,
  keep, length, count_if, All, find, IsKeyed, keep-IsKeyed, arith,
}
use magnemite.AgentRelease.{
  Build, Release, Agent, Slot, Order, UpdateState, Updates, in_flight_ttl_ms, has_slot,
  release_agent_update_slot, take_slot, reap_in_flight, finish_agent_update,
  record_agent_update_failure, is_on, build_for, build_key_for_abi, consider, offer,
  maybe_update_agent,
}

abbrev pub slot_key : Slot → ℕ
slot_key s = s.device_id

-- The steps of the hub, in any order; `limit` is what the settings allow at most.
pub data Turn (limit : ℕ) : Updates → Updates → Type 0 where
  considers :
      {u : Updates} (now : ℕ) (r : Release) (a : Agent) → Turn limit u (consider now r a u).0
  offers :
      {u : Updates} (now concurrency : ℕ) (r : Release) (b : Build) (a : Agent)
      → concurrency ≤ limit
      → Turn limit u (offer now concurrency r b a u).0
  fails :
      {u : Updates} (now d : ℕ) (version : String) (error : Option String)
      → Turn limit u (record_agent_update_failure now d version error u)
  frees :
      {u : Updates} (d : ℕ)
      → Turn limit u (record u { in_flight = release_agent_update_slot d u.in_flight })

pub data Turns (limit : ℕ) : Updates → Type 0 where
  starts : {u : Updates} → u.in_flight ≡ [] → Turns limit u
  next : {u v : Updates} → Turns limit u → Turn limit u v → Turns limit v

abbrev IsWithin : ℕ → List Slot → Type 0
IsWithin limit slots = (length slots ≤ limit) × IsKeyed slot_key slots

length-keep : (p : Slot → Bool) (xs : List Slot) → length (keep p xs) ≤ length xs
length-keep p [] = omega arith
length-keep p (x ∷ xs) = ground (arith, length-keep p xs)

keep-IsWithin :
    (limit : ℕ) (p : Slot → Bool) (xs : List Slot) → IsWithin limit xs → IsWithin limit (keep p xs)
keep-IsWithin limit p xs (l, u) =
    let shorter = length-keep p xs in (omega arith, keep-IsKeyed slot_key p xs u)

length-take_slot : (d now : ℕ) (xs : List Slot) → length (take_slot d now xs) ≤ suc (length xs)
unfolding take_slot
length-take_slot d now [] = omega arith
length-take_slot d now (x ∷ xs) = ground (arith, length-take_slot d now xs)

take_slot-none :
    (d now k : ℕ) (xs : List Slot)
    → d == k ≡ false
    → find slot_key k xs ≡ none
    → find slot_key k (take_slot d now xs) ≡ none
unfolding take_slot find
take_slot-none d now k [] n e = ground arith
take_slot-none d now k (x ∷ xs) n e = ground (arith, take_slot-none d now k xs n)

take_slot-IsKeyed :
    (d now : ℕ) (xs : List Slot) → IsKeyed slot_key xs → IsKeyed slot_key (take_slot d now xs)
unfolding take_slot find
take_slot-IsKeyed d now [] u = (refl, tt)
take_slot-IsKeyed d now (x ∷ xs) (u, us) = elim (Bool-cases (x.device_id == d)) [
  | inl y ↦ rw y (u, us)
  | inr n ↦
      rw n (take_slot-none d now x.device_id xs (ground arith) u, take_slot-IsKeyed d now xs us)
]

finish_agent_update-in_flight :
    (now d : ℕ) (s : UpdateState) (version error : Option String) (u : Updates)
    → (finish_agent_update now d s version error u).in_flight ≡ u.in_flight
unfolding finish_agent_update
finish_agent_update-in_flight now d s version error u = ground arith

consider-IsWithin :
    (limit now : ℕ) (r : Release) (a : Agent) (u : Updates)
    → IsWithin limit u.in_flight
    → IsWithin limit (consider now r a u).0.in_flight
unfolding consider release_agent_update_slot reap_in_flight
consider-IsWithin limit now r a u h =
    if_either Good (is_on r a) _ _
      (λ _.
        rw
          (finish_agent_update-in_flight now a.id UpdateState.success (some r.version) none
            (record u { in_flight = release_agent_update_slot a.id u.in_flight }))
          (keep-IsWithin limit _ u.in_flight h))
      λ _.
        if_either Good (is_some a.current_job_id) (u, none) _ (λ _. h)
          λ _. by_build (build_for r (build_key_for_abi a.abi))
  where
    Good : Updates × Option Build → Type 0
    Good x = IsWithin limit x.0.in_flight

    by_build :
        (b : Option Build)
        → Good (elim b [
          | none ↦ (u, none)
          | some b ↦
              let reaped = record u { in_flight = reap_in_flight now u.in_flight } in
              (reaped, if has_slot a.id reaped.in_flight then none else some b)
        ])
    by_build none = h
    by_build (some b) = keep-IsWithin limit _ u.in_flight h

offer-IsWithin :
    (limit now concurrency : ℕ) (r : Release) (b : Build) (a : Agent) (u : Updates)
    → concurrency ≤ limit
    → IsWithin limit u.in_flight
    → IsWithin limit (offer now concurrency r b a u).0.in_flight
unfolding offer
offer-IsWithin limit now concurrency r b a u le h =
    if_either (λ (x : Updates × Bool). IsWithin limit x.0.in_flight)
      (leb concurrency (length u.in_flight)) (u, false) _ (λ _. h)
      λ room.
        let more = length-take_slot a.id now u.in_flight in
        (ground arith, take_slot-IsKeyed a.id now u.in_flight h.1)

Turn-IsWithin :
    {limit : ℕ} {u v : Updates}
    → Turn limit u v
    → IsWithin limit u.in_flight
    → IsWithin limit v.in_flight
unfolding release_agent_update_slot record_agent_update_failure
Turn-IsWithin {limit} {u} (considers now r a) h = consider-IsWithin limit now r a u h
Turn-IsWithin {limit} {u} (offers now c r b a le) h = offer-IsWithin limit now c r b a u le h
Turn-IsWithin {limit} {u} (fails now d version error) h =
    rw
      (finish_agent_update-in_flight now d UpdateState.failed (some version)
        (some (or_else error "the agent reported a failure with no detail"))
        (record u { in_flight = release_agent_update_slot d u.in_flight }))
      (keep-IsWithin limit _ u.in_flight h)
Turn-IsWithin {limit} {u} (frees d) h = keep-IsWithin limit _ u.in_flight h

-- However the checks of boxes, the two halves of each apart, the failures that boxes report and
-- the slots that are given back follow on one another from an empty map, and whatever the setting
-- was at each check, if it was never above a limit, then no more boxes than the limit have a slot,
-- and none has two.
pub Turns-IsWithin :
    {limit : ℕ} {u : Updates}
    → Turns limit u
    → (length u.in_flight ≤ limit) × IsKeyed slot_key u.in_flight
Turns-IsWithin (starts e) = rw e (omega arith, tt)
Turns-IsWithin (next t s) = Turn-IsWithin s (Turns-IsWithin t)

-- A slot that is younger than ten minutes.
abbrev pub is_young : (now : ℕ) → Slot → Bool
is_young now s = leb now (s.started_at + in_flight_ttl_ms)

length-keep_count : (p : Slot → Bool) (xs : List Slot) → length (keep p xs) ≡ count_if p xs
length-keep_count p [] = refl
length-keep_count p (x ∷ xs) = ground (arith, length-keep_count p xs)

has_slot-keep_none :
    (p : Slot → Bool) (d : ℕ) (xs : List Slot)
    → All (λ s. s.device_id == d ≡ true → p s ≡ false) xs
    → has_slot d (keep p xs) ≡ false
has_slot-keep_none p d [] h = refl
has_slot-keep_none p d (x ∷ xs) (old, h) = elim (Bool-cases (p x)) [
  | inl y ↦ rw y (ground (arith, old, has_slot-keep_none p d xs h))
  | inr n ↦ rw n (has_slot-keep_none p d xs h)
]

-- An idle box on another version than the release's, with a build for its ABI and no slot of the
-- last ten minutes, is told to take that build if fewer slots than the setting are that young,
-- however many older ones there are.
pub maybe_update_agent_again :
    (now concurrency : ℕ) (r : Release) (b : Build) (a : Agent) (u : Updates)
    → is_on r a ≡ false
    → a.current_job_id ≡ none
    → build_for r (build_key_for_abi a.abi) ≡ some b
    → All (λ s. s.device_id == a.id ≡ true → is_young now s ≡ false) u.in_flight
    → count_if (is_young now) u.in_flight < concurrency
    → ((maybe_update_agent now concurrency (some r) a u).1 ≡ true)
      × ((maybe_update_agent now concurrency (some r) a u).0.orders
          ≡ record { device_id = a.id; build = b; version = r.version } ∷ u.orders)
unfolding maybe_update_agent consider offer reap_in_flight
maybe_update_agent_again now concurrency r b a u older idle built old room =
    let none_left = has_slot-keep_none (is_young now) a.id u.in_flight old in
    let count = length-keep_count (is_young now) u.in_flight in
    let free : leb concurrency (length (keep (is_young now) u.in_flight)) ≡ false = ground arith in
    rw (older, idle, built, none_left, free) (refl, refl)

keep-keep : (p : Slot → Bool) (xs : List Slot) → keep p (keep p xs) ≡ keep p xs
keep-keep p [] = refl
keep-keep p (x ∷ xs) = elim (Bool-cases (p x)) [
  | inl y ↦ rw y (rw y (ap (λ r. x ∷ r) (keep-keep p xs)))
  | inr n ↦ rw n (keep-keep p xs)
]

-- A box that may be told may still be told after the half of a check that has told nobody.
consider_twice :
    (now : ℕ) (r : Release) (b : Build) (a : Agent) (u : Updates)
    → (consider now r a u).1 ≡ some b
    → (consider now r a (consider now r a u).0).1 ≡ some b
unfolding consider reap_in_flight
consider_twice now r b a u e = elim (Bool-cases (is_on r a)) [
  | inl y ↦ absurd (none-ne-some (rw y at e))
  | inr n ↦ elim (Bool-cases (is_some a.current_job_id)) [
    | inl y ↦ absurd (none-ne-some (rw (n, y) at e))
    | inr idle ↦ elim (Option-cases (build_for r (build_key_for_abi a.abi))) [
      | inl nothing ↦ absurd (none-ne-some (rw (n, idle, nothing) at e))
      | inr (b', built) ↦
          let e' = rw (n, idle, built) at e in
          rw (n, idle, built) (rw (n, idle, built) (rw (keep-keep (is_young now) u.in_flight) e'))
    ]
  ]
]
  where
    none-ne-some : none ≡ some b → ⊥
    none-ne-some h = cc

-- If a box may be told, another check of it before the first has its settings finds that it may,
-- too, and when both go on with room for one box more than the first takes, both send it the
-- order.
pub overlapping_offers :
    (now later concurrency : ℕ) (r : Release) (b : Build) (a : Agent) (u : Updates)
    → (consider now r a u).1 ≡ some b
    → length (consider now r a (consider now r a u).0).0.in_flight + 1 < concurrency
    → let again = consider now r a (consider now r a u).0 in
      let first = offer now concurrency r b a again.0 in
      let second = offer later concurrency r b a first.0 in
      let order : Order = record { device_id = a.id; build = b; version = r.version } in
      (again.1 ≡ some b)
      × (first.1 ≡ true)
      × (second.1 ≡ true)
      × (second.0.orders ≡ order ∷ order ∷ again.0.orders)
unfolding offer
overlapping_offers now later concurrency r b a u e room =
    let again = (consider now r a (consider now r a u).0).0 in
    let more = length-take_slot a.id now again.in_flight in
    let free : leb concurrency (length again.in_flight) ≡ false = ground arith in
    let still : leb concurrency (length (take_slot a.id now again.in_flight)) ≡ false =
      ground arith in
    rw (free, still) (consider_twice now r b a u e, refl, refl, refl)
