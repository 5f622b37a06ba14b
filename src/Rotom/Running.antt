-- ===== src/Rotom/Running.antt =====
-- The ticks and stops of the loop of rotom.ts, as steps.
use magnemite.Prelude.{
  ℕ, ◌+◌, ◌*◌, ◌≡◌, refl, ap, ◌∙◌, inl, inr, Option-cases, Bool-cases, ltb, if◌then◌else◌, List, [],
  ◌∷◌, find,
}
use magnemite.Rotom.{our_key}
use magnemite.Rotom.Sync.{Syncing, SyncPass}
use magnemite.Rotom.Pass.{synced_at, maybe_sync, stop_rotom_sync}
use magnemite.Rotom.Standing.{
  Sighting, silence, stopped, step_standing, replay, standing, sighting, IsRow, IsOnce,
  sync_devices-standing, sync_devices-IsRow,
}

-- A tick that is not due shows nothing.
unfoldable pub tick : (seconds : ℕ) → SyncPass → ℕ → Syncing → Sighting
unfolding sighting
tick seconds p k s =
    if ltb p.now (s.last_synced_at + seconds * 1000) then silence else sighting p k s

-- Ticks of the loop and stops. At each pass that runs, at most one device is the box.
pub data Runs (k : ℕ) : List Sighting → Syncing → Syncing → Type 0 where
  begins : {s : Syncing} → Runs k [] s s
  ticks :
      {os : List Sighting} {s t : Syncing} (seconds : ℕ) (p : SyncPass)
      → IsOnce p k t
      → Runs k os s t
      → Runs k (tick seconds p k t ∷ os) s (maybe_sync seconds p t)
  stops :
      {os : List Sighting} {s t : Syncing}
      → Runs k os s t
      → Runs k (stopped ∷ os) s (stop_rotom_sync t)

maybe_sync-standing :
    (seconds : ℕ) (p : SyncPass) (k : ℕ) (s : Syncing)
    → IsRow k s
    → IsOnce p k s
    → (standing k (maybe_sync seconds p s) ≡ step_standing (tick seconds p k s) (standing k s))
      × IsRow k (maybe_sync seconds p s)
unfolding maybe_sync tick sighting IsRow IsOnce
maybe_sync-standing seconds p k s row once =
    elim (Bool-cases (ltb p.now (s.last_synced_at + seconds * 1000))) [
      | inl e ↦ rw (maybe_sync, tick, e) (refl, row)
      | inr e ↦
          rw (maybe_sync, tick, e)
            (
              sync_devices-standing p k (synced_at p.now s) row once,
              sync_devices-IsRow p k (synced_at p.now s) row once,
            )
    ]

stop-standing :
    (k : ℕ) (s : Syncing) → standing k (stop_rotom_sync s) ≡ step_standing stopped (standing k s)
unfolding find
stop-standing k s = elim (Option-cases (find our_key k s.devices)) [
  | inl e ↦ rw e refl
  | inr (d, e) ↦ elim (Bool-cases d.rotom.connected) [
    | inl e' ↦ rw (e, e') refl
    | inr e' ↦ rw (e, e') refl
  ]
]

Runs-standing_and_IsRow :
    (k : ℕ) {os : List Sighting} {s t : Syncing}
    → Runs k os s t
    → IsRow k s
    → (standing k t ≡ replay os (standing k s)) × IsRow k t
unfolding IsRow
Runs-standing_and_IsRow k begins row = (refl, row)
Runs-standing_and_IsRow k (ticks {os} {s} {t} seconds p once r) row =
    let (e, row') = Runs-standing_and_IsRow k r row in
    let (e', row'') = maybe_sync-standing seconds p k t row' once in
    (e' ∙ ap (step_standing (tick seconds p k t)) e, row'')
Runs-standing_and_IsRow k (stops {os} {s} {t} r) row =
    let (e, row') = Runs-standing_and_IsRow k r row in
    (stop-standing k t ∙ ap (step_standing stopped) e, row')

-- By any ticks of the loop and stops: what the hub holds of a box that has a row and that at most
-- one device of each list is, comes to be what the sightings make of what it was: a list that it
-- is in sets it as listed, a second one in a row that it is missing from takes it offline, silence
-- changes nothing, and a stop forgets that it was missing.
pub Runs-standing :
    (k : ℕ) {os : List Sighting} {s t : Syncing}
    → Runs k os s t
    → IsRow k s
    → standing k t ≡ replay os (standing k s)
Runs-standing k r row = (Runs-standing_and_IsRow k r row).0
