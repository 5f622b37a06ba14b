-- ===== src/Rotom.antt =====
-- services/rotom.ts: what Rotom lists, and the Rotom half of a box's row.
pub mod Matching
pub mod Workers
pub mod Sync
pub mod Pass
pub mod Reads
pub mod Loop
pub mod Keyed
pub mod Passing
pub mod Standing
pub mod Running
pub mod History
use magnemite.Prelude.{
  ℕ, ◌==◌, if◌then◌else◌, Bool, not, true, false, Option, none, some, String, List, str_eq, ◌&&◌,
}

-- Of a worker, what the sync reads: its rate of requests and their mean duration over five minutes, each
-- in thousandths.
pub record RotomWorker : Type 0 where
  pub id : String
  pub rate : Option ℕ
  pub ms : Option ℕ

-- A device of the answer that parses.
pub record RotomDevice : Type 0 where
  pub id : String
  pub origin : Option String
  pub version : Option String
  pub public_ip : Option String
  pub worker_count : Option ℕ
  pub worker_in_use_count : Option ℕ
  pub last_seen_at_ms : Option ℕ
  pub enabled : Option Bool
  pub is_connected : Option Bool
  pub can_be_used : Option Bool
  pub is_in_use : Option Bool
  pub workers : Option (List RotomWorker)

pub record RotomState : Type 0 where
  pub origin : Option String
  pub device_id : Option String
  pub connected : Bool
  pub worker_count : Option ℕ
  pub last_seen_at : Option ℕ
  pub enabled : Bool
  pub can_be_used : Bool
  pub workers_in_use : Option ℕ
  pub in_use : Bool
  pub version : Option String
  pub request_rate : Option ℕ
  pub request_ms : Option ℕ
  pub stat_workers : Option ℕ

pub record OurDevice : Type 0 where
  pub id : ℕ
  pub name : String
  pub serial : String
  pub local_ip : Option String
  pub public_ip : Option String
  pub rotom : RotomState

abbrev pub our_key : OurDevice → ℕ
our_key d = d.id

abbrev pub same_flag : Bool → Bool → Bool
same_flag a b = if a then b else not b

-- `===` of a value that may be null.
abbrev pub same_maybe {ℓ} : {A : Type ℓ} → (A → A → Bool) → Option A → Option A → Bool
same_maybe same none none = true
same_maybe same (some a) (some b) = same a b
same_maybe same _ _ = false

abbrev pub same_text : Option String → Option String → Bool
same_text = same_maybe str_eq

abbrev pub same_number : Option ℕ → Option ℕ → Bool
same_number = same_maybe ◌==◌

-- `sameInstant`.
abbrev pub same_instant : Option ℕ → Option ℕ → Bool
same_instant a b = same_number a b

unfoldable pub same_visible_state : (current next : RotomState) → Bool
same_visible_state current next =
    same_text current.origin next.origin
    && same_text current.device_id next.device_id
    && same_flag current.connected next.connected
    && same_number current.worker_count next.worker_count
    && same_flag current.enabled next.enabled
    && same_flag current.can_be_used next.can_be_used
    && same_number current.workers_in_use next.workers_in_use
    && same_flag current.in_use next.in_use
    && same_text current.version next.version
    && same_number current.request_rate next.request_rate
    && same_number current.request_ms next.request_ms
    && same_number current.stat_workers next.stat_workers
