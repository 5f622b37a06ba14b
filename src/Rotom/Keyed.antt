-- ===== src/Rotom/Keyed.antt =====
-- What the loop and the sweep of rotom.ts keep: the keys of the boxes' rows, and the history.
use magnemite.Prelude.{
  ℕ, true, ◌+◌, refl, ◌≡◌, inl, inr, Option-cases, Bool-cases, ltb, if_both, not, ◌||◌, List, [],
  ◌∷◌, find, update-IsKeyed, IsKeyed,
}
use magnemite.Rotom.{RotomDevice, RotomState, OurDevice, our_key}
use magnemite.Rotom.Matching.{match_device, next_state}
use magnemite.Rotom.Sync.{
  Syncing, SyncPass, with_rotom, clear_row, write, Looped, take_device, take_devices, sweep_device,
  sweep, cache_workers, store_state, is_matched, missed, misses_before_offline,
}
use magnemite.Rotom.Pass.{swept, looped}

-- The rows have their keys, and no history is written.
abbrev pub Sound : Syncing → Syncing → Type 0
Sound base s =
    IsKeyed our_key s.devices × (s.samples ≡ base.samples) × (s.last_slot ≡ base.last_slot)

module _ (base : Syncing) where
  write-Sound :
      (ours : List OurDevice) (k : ℕ) (next : RotomState) (s : Syncing)
      → Sound base s
      → Sound base (write ours k next s)
  unfolding write
  write-Sound ours k next s u =
      let stored : Sound base (store_state k next true s) =
        (update-IsKeyed our_key k (with_rotom next) (λ d. refl) s.devices u.0, u.1, u.2) in
      elim (Option-cases (find our_key k ours)) [
        | inl e ↦ rw (write, e) stored
        | inr (d, e) ↦ rw (write, e) (if_both (Sound base) _ _ _ u stored)
      ]

  take_devices-Sound :
      (p : SyncPass) (ours : List OurDevice) (rs : List RotomDevice) (l : Looped)
      → Sound base l.state
      → Sound base (take_devices p ours rs l).state
  unfolding take_devices take_device
  take_devices-Sound p ours [] l u = u
  take_devices-Sound p ours (r ∷ rs) l u =
      take_devices-Sound p ours rs (take_device p ours r l)
        (elim (Option-cases (match_device p.lower r ours)) [
          | inl e ↦ rw (take_device, e) u
          | inr (k, e) ↦
              rw (take_device, e)
                (write-Sound ours k (next_state r) (cache_workers p k r.workers l.state) u)
        ])

  sweep_device-Sound :
      (matched : List ℕ) (d : OurDevice) (s : Syncing) (flipped : List ℕ)
      → Sound base s
      → Sound base (sweep_device matched d (s, flipped)).0
  unfolding sweep_device
  sweep_device-Sound matched d s flipped u =
      elim (Bool-cases (is_matched d.id matched || not d.rotom.connected)) [
        | inl e ↦ rw (sweep_device, e) u
        | inr e ↦ elim (Bool-cases (ltb (missed d.id s.misses + 1) misses_before_offline)) [
          | inl e' ↦ rw (sweep_device, e, e') u
          | inr e' ↦
              rw (sweep_device, e, e')
                (update-IsKeyed our_key d.id clear_row (λ x. refl) s.devices u.0, u.1, u.2)
        ]
      ]

  sweep-Sound :
      (ours : List OurDevice) (matched : List ℕ) (sf : Syncing × List ℕ)
      → Sound base sf.0
      → Sound base (sweep ours matched sf).0
  unfolding sweep
  sweep-Sound [] matched sf u = u
  sweep-Sound (d ∷ ours) matched (s, flipped) u =
      sweep-Sound ours matched (sweep_device matched d (s, flipped))
        (sweep_device-Sound matched d s flipped u)

pub swept-Sound :
    (p : SyncPass) (rs : List RotomDevice) (s : Syncing)
    → IsKeyed our_key s.devices
    → Sound s (swept p rs s).0
swept-Sound p rs s u =
    let l = looped p rs s in
    sweep-Sound s s.devices l.matched (l.state, [])
      (take_devices-Sound s p s.devices rs _ (u, refl, refl))
