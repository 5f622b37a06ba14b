-- ===== src/Rotom/Matching.antt =====
-- rotom.ts: which box a device of Rotom's is (matchDevice), and what its row would say.
use magnemite.Prelude.{
  ℕ, ◌==◌, if◌then◌else◌, Bool, true, false, Option, none, some, String, List, [], ◌∷◌, length,
  keep, or_else, or_maybe, str_eq,
}
use magnemite.Rotom.{RotomDevice, RotomState, OurDevice, same_text}
use magnemite.Rotom.Workers.{summarise_workers}

-- `ours.find(p)`.
abbrev first {ℓ} : {A : Type ℓ} → (A → Bool) → List A → Option A
first p [] = none
first p (x ∷ xs) = let rest = first p xs in if p x then some x else rest

abbrev pub by_id :
    (lower : String → String) → (rotom_id : String) → List OurDevice → Option OurDevice
by_id lower rotom_id ours =
    or_maybe (first (λ d. same_text d.rotom.device_id (some rotom_id)) ours) (
      or_maybe (first (λ d. str_eq d.name rotom_id) ours) (
        or_maybe (first (λ d. str_eq d.serial rotom_id) ours)
          (first (λ d. str_eq (lower d.name) (lower rotom_id)) ours)))

abbrev pub only : List OurDevice → Option ℕ
only [] = none
only (d ∷ ds) = if length ds == 0 then some d.id else none

-- `byAddress`. An empty address is none.
abbrev pub by_address : Option String → (OurDevice → Option String) → List OurDevice → Option ℕ
by_address none our_address ours = none
by_address (some address) our_address ours =
    if str_eq address ""
    then none
    else only (keep (λ d. same_text (our_address d) (some address)) ours)

unfoldable pub match_device : (lower : String → String) → RotomDevice → List OurDevice → Option ℕ
match_device lower rotom ours = elim (by_id lower rotom.id ours) [
  | some d ↦ some d.id
  | none ↦
      or_maybe (by_address rotom.origin (λ d. d.local_ip) ours)
        (by_address rotom.public_ip (λ d. d.public_ip) ours)
]

-- `Boolean(b)`.
abbrev pub truthy : Option Bool → Bool
truthy b = or_else b false

-- The instant, unless it is 0.
abbrev pub instant_of : Option ℕ → Option ℕ
instant_of none = none
instant_of (some ms) = if ms == 0 then none else some ms

-- `next` of the loop.
unfoldable pub next_state : RotomDevice → RotomState
next_state rotom =
    let stats = summarise_workers rotom.workers in
    record {
      origin = rotom.origin;
      device_id = some rotom.id;
      connected = truthy rotom.is_connected;
      worker_count = rotom.worker_count;
      last_seen_at = instant_of rotom.last_seen_at_ms;
      enabled = or_else rotom.enabled true;
      can_be_used = truthy rotom.can_be_used;
      workers_in_use = rotom.worker_in_use_count;
      in_use = truthy rotom.is_in_use;
      version = rotom.version;
      request_rate = stats.rate;
      request_ms = stats.ms;
      stat_workers = stats.reporting;
    }
