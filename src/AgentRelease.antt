-- ===== src/AgentRelease.antt =====
-- apps/hub/src/services/agentRelease.ts: which box is told to update its agent, and how many at once.
-- The release that the image carries is a parameter. `maybeUpdateAgent` waits for the settings in the
-- middle: the part before and the part after are two steps, between which others may come.
pub mod Slots
use magnemite.Prelude.{
  ℕ, ◌+◌, ◌*◌, ◌==◌, leb, if◌then◌else◌, Bool, true, false, not, ◌&&◌, ◌||◌, Option, none, some,
  is_some, or_else, String, str_eq, List, [], ◌∷◌, any, keep, length,
}
use text.Mathlib.Text.{starts_with}
use magnemite.Jobs.{is_truthy}
use magnemite.Store.{BusEvent, device}

pub record Build : Type 0 where
  pub url : String
  pub sha256 : String

pub record Release : Type 0 where
  pub version : String
  pub builds : List (String × Build)

-- What the hub knows of the agent of a box that has a socket.
pub record Agent : Type 0 where
  pub id : ℕ
  pub abi : Option String
  pub agent_version : Option String
  pub current_job_id : Option ℕ

pub record Slot : Type 0 where
  pub device_id : ℕ
  pub started_at : ℕ

pub data UpdateState : Type 0 where
  sent success failed : UpdateState

pub record AgentUpdate : Type 0 where
  pub device_id : ℕ
  pub from_version : Option String
  pub to_version : String
  pub state : UpdateState
  pub error : Option String
  pub sent_at : ℕ
  pub finished_at : Option ℕ

pub record Order : Type 0 where
  pub device_id : ℕ
  pub build : Build
  pub version : String

-- `inFlight`, the table of attempts, and what has been sent, newest first.
pub record Updates : Type 0 where
  pub in_flight : List Slot
  pub attempts : List AgentUpdate
  pub orders : List Order
  pub bus : List BusEvent

abbrev pub in_flight_ttl_ms : ℕ
in_flight_ttl_ms = 10 * 60 * 1000

unfoldable pub build_key_for_abi : Option String → Option String
build_key_for_abi none = none
build_key_for_abi (some abi) =
    if starts_with abi "arm64"
    then some "arm64"
    else (if starts_with abi "armeabi" || str_eq abi "arm" then some "arm" else none)

unfoldable pub find_build : String → List (String × Build) → Option Build
find_build key [] = none
find_build key (b ∷ bs) = if str_eq b.0 key then some b.1 else find_build key bs

abbrev pub build_for : Release → Option String → Option Build
build_for r none = none
build_for r (some key) = find_build key r.builds

abbrev pub has_slot : ℕ → List Slot → Bool
has_slot d slots = any (λ s. s.device_id == d) slots

-- `inFlight.delete(deviceId)`.
unfoldable pub release_agent_update_slot : ℕ → List Slot → List Slot
release_agent_update_slot d slots = keep (λ s. not (s.device_id == d)) slots

-- `inFlight.set(deviceId, now)`.
unfoldable pub take_slot : (d now : ℕ) → List Slot → List Slot
take_slot d now [] = record { device_id = d; started_at = now } ∷ []
take_slot d now (s ∷ ss) =
    let rest = take_slot d now ss in
    if s.device_id == d then record s { started_at = now } ∷ ss else s ∷ rest

unfoldable pub reap_in_flight : (now : ℕ) → List Slot → List Slot
reap_in_flight now slots = keep (λ s. leb now (s.started_at + in_flight_ttl_ms)) slots

abbrev is_sent : UpdateState → Bool
is_sent sent = true
is_sent _ = false

abbrev is_open : ℕ → Option String → AgentUpdate → Bool
is_open d version u =
    u.device_id == d
    && is_sent u.state
    && (not (is_truthy version) || str_eq u.to_version (or_else version ""))

-- Only the newest open attempt is closed.
unfoldable pub close_newest :
    (now d : ℕ) → Option String → UpdateState → Option String → List AgentUpdate → List AgentUpdate
close_newest now d version state error [] = []
close_newest now d version state error (u ∷ us) =
    let rest = close_newest now d version state error us in
    if is_open d version u
    then record u { state = state; error = error; finished_at = some now } ∷ us
    else u ∷ rest

unfoldable pub finish_agent_update :
    (now d : ℕ) → UpdateState → (version error : Option String) → Updates → Updates
unfolding close_newest
finish_agent_update now d state version error u =
    if any (is_open d version) u.attempts
    then record u {
      attempts = close_newest now d version state error u.attempts;
      bus = device d ∷ u.bus;
    }
    else u

unfoldable pub record_agent_update_failure :
    (now d : ℕ) → (version : String) → (error : Option String) → Updates → Updates
unfolding finish_agent_update release_agent_update_slot
record_agent_update_failure now d version error u =
    finish_agent_update now d failed (some version)
      (some (or_else error "the agent reported a failure with no detail"))
      (record u { in_flight = release_agent_update_slot d u.in_flight })

abbrev pub is_on : Release → Agent → Bool
is_on r a = elim a.agent_version [ none ↦ false | some v ↦ str_eq v r.version ]

-- `maybeUpdateAgent` up to the settings: the state, and the build to go on with.
unfoldable pub consider : (now : ℕ) → Release → Agent → Updates → Updates × Option Build
unfolding build_key_for_abi find_build reap_in_flight release_agent_update_slot finish_agent_update
consider now r a u =
    let reaped = record u { in_flight = reap_in_flight now u.in_flight } in
    if is_on r a
    then (
      finish_agent_update now a.id success (some r.version) none
          (record u { in_flight = release_agent_update_slot a.id u.in_flight }),
      none,
    )
    else (if is_some a.current_job_id
        then (u, none)
        else elim (build_for r (build_key_for_abi a.abi)) [
          | none ↦ (u, none)
          | some b ↦ (reaped, if has_slot a.id reaped.in_flight then none else some b)
        ])

-- And the rest of it, with the cap of the settings.
unfoldable pub offer : (now concurrency : ℕ) → Release → Build → Agent → Updates → Updates × Bool
unfolding take_slot
offer now concurrency r b a u = if leb concurrency (length u.in_flight) then (u, false) else (
  record u {
    in_flight = take_slot a.id now u.in_flight;
    orders = record { device_id = a.id; build = b; version = r.version } ∷ u.orders;
    attempts =
        record {
          device_id = a.id;
          from_version = a.agent_version;
          to_version = r.version;
          state = sent;
          error = none;
          sent_at = now;
          finished_at = none;
        }
        ∷ u.attempts;
    bus = device a.id ∷ u.bus;
  },
  true,
)

abbrev go_on : (now concurrency : ℕ) → Release → Agent → Updates × Option Build → Updates × Bool
go_on now concurrency r a (u, none) = (u, false)
go_on now concurrency r a (u, some b) = offer now concurrency r b a u

-- The two parts with nothing in between.
unfoldable pub maybe_update_agent :
    (now concurrency : ℕ) → Option Release → Agent → Updates → Updates × Bool
unfolding consider offer
maybe_update_agent now concurrency none a u = (u, false)
maybe_update_agent now concurrency (some r) a u = go_on now concurrency r a (consider now r a u)
