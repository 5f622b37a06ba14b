-- ===== src/Registry.antt =====
-- apps/hub/src/registry.ts: which box has which socket. A connection is a device and its socket;
-- what else it carries is for the other services. `Connections` is the Map, an entry a device.
pub mod Liveness
use magnemite.Prelude.{
  ℕ, ◌==◌, if◌then◌else◌, Bool, Option, none, some, is_some, List, [], ◌∷◌, map, length,
}

pub record Connection : Type 0 where
  pub device_id : ℕ
  pub socket : ℕ

abbrev pub Connections : Type 0
Connections = List Connection

unfoldable pub get_connection : ℕ → Connections → Option Connection
get_connection d [] = none
get_connection d (c ∷ cs) = if c.device_id == d then some c else get_connection d cs

-- `connections.delete(deviceId)`.
unfoldable pub delete : ℕ → Connections → Connections
delete d [] = []
delete d (c ∷ cs) = let rest = delete d cs in if c.device_id == d then rest else c ∷ rest

-- `connections.set(conn.deviceId, conn)`.
unfoldable pub put : Connection → Connections → Connections
put conn [] = conn ∷ []
put conn (c ∷ cs) =
    let rest = put conn cs in if c.device_id == conn.device_id then conn ∷ cs else c ∷ rest

-- The connections after the call, and the socket that it closes.
unfoldable pub register : Connection → Connections → Connections × Option ℕ
unfolding get_connection put
register conn cs = (
  put conn cs,
  elim (get_connection conn.device_id cs) [
    | none ↦ none
    | some old ↦ if old.socket == conn.socket then none else some old.socket
  ],
)

unfoldable pub unregister : ℕ → ℕ → Connections → Connections
unfolding get_connection delete
unregister d socket cs = elim (get_connection d cs) [
  | none ↦ cs
  | some old ↦ if old.socket == socket then delete d cs else cs
]

unfoldable pub is_online : ℕ → Connections → Bool
unfolding get_connection
is_online d cs = is_some (get_connection d cs)

abbrev online_device_ids : Connections → List ℕ
online_device_ids cs = map (λ c. c.device_id) cs

abbrev connection_count : Connections → ℕ
connection_count cs = length cs
