-- ===== src/Rotom/Loop.antt =====
-- What the loop of syncDevices of rotom.ts leaves to be read of one box that at most one device is.
use magnemite.Prelude.{
  ℕ, ◌≤◌, ◌==◌, ◌≡◌, refl, ap, ◌∙◌, inl, inr, Bool-cases, Option-cases, ==_refl, if◌then◌else◌,
  Bool, true, false, not, Option, none, some, List, [], ◌∷◌, find, find-update_self, count_if,
  if_either, arith,
}
use magnemite.Sources.Stats.{put_value, add_seen}
use magnemite.Rotom.{RotomDevice, RotomState, OurDevice, our_key, same_number}
use magnemite.Rotom.Matching.{match_device, next_state}
use magnemite.Rotom.Sync.{
  Miss, Belief, Syncing, SyncPass, miss_key, belief_key, with_rotom, write, Looped, take_device,
  take_devices, is_matched, cache_workers,
}
use magnemite.Rotom.Reads.{
  same_state_eq, both_true, same_number_eq, find-put_value, is_matched-add_seen, find-update_other,
}

not-not : (b : Bool) → not (not b) ≡ true → b ≡ true
not-not b e = ground arith

module _ (p : SyncPass) (ours : List OurDevice) (k : ℕ) where
  -- The device is the box.
  abbrev pub is_box : RotomDevice → Bool
  is_box r = same_number (match_device p.lower r ours) (some k)

  -- The device of the list that is the box.
  unfoldable pub shown : List RotomDevice → Option RotomDevice
  shown [] = none
  shown (r ∷ rs) = if is_box r then some r else shown rs

  abbrev pub LoopView : Type 0
  LoopView = Option OurDevice × Option Miss × Bool × Option Belief

  abbrev pub loop_view : Looped → LoopView
  loop_view l = (
    find our_key k l.state.devices,
    find miss_key k l.state.misses,
    is_matched k l.matched,
    find belief_key k l.believed,
  )

  abbrev pub seen_view : OurDevice → RotomDevice → LoopView → LoopView
  seen_view d r (row, m, b, s) = (
    some (with_rotom (next_state r) d),
    m,
    true,
    some (record { device_id = k; state = next_state r }),
  )

  write-devices_other :
      (j : ℕ) (next : RotomState)
      → (j == k) ≡ false
      → (s : Syncing) → find our_key k (write ours j next s).devices ≡ find our_key k s.devices
  unfolding write
  write-devices_other j next other s = elim (Option-cases (find our_key j ours)) [
    | inl e ↦ rw (write, e) (find-update_other k j (with_rotom next) (λ d. refl) other s.devices)
    | inr (d, e) ↦
        rw (write, e)
          (if_either (λ (t : Syncing). find our_key k t.devices ≡ find our_key k s.devices) _ _ _
            (λ e'. refl)
            (λ e'. find-update_other k j (with_rotom next) (λ d. refl) other s.devices))
  ]

  write-devices_self :
      (next : RotomState) {d : OurDevice}
      → find our_key k ours ≡ some d
      → (s : Syncing) → find our_key k s.devices ≡ some d
      → find our_key k (write ours k next s).devices ≡ some (with_rotom next d)
  unfolding write
  write-devices_self next {d} read s held =
      rw (write, read)
        (if_either (λ (t : Syncing). find our_key k t.devices ≡ some (with_rotom next d)) _ _ _
          (λ e.
            held
            ∙ ap (λ r. some (with_rotom r d))
                (same_state_eq d.rotom next (not-not _ (both_true _ _ e).0)
                  (not-not _ (both_true _ _ e).1)))
          (λ e. find-update_self our_key k (with_rotom next) (λ x. refl) s.devices held))

  write-misses : (j : ℕ) (next : RotomState) (s : Syncing) → (write ours j next s).misses ≡ s.misses
  unfolding write
  write-misses j next s = elim (Option-cases (find our_key j ours)) [
    | inl e ↦ rw (write, e) refl
    | inr (d, e) ↦
        rw (write, e)
          (if_either (λ (t : Syncing). t.misses ≡ s.misses) _ _ _ (λ e'. refl) (λ e'. refl))
  ]

  believed_other :
      (j : ℕ) (next : RotomState) (bs : List Belief)
      → (j == k) ≡ false
      → find belief_key k (put_value belief_key (record { device_id = j; state = next }) bs)
        ≡ find belief_key k bs
  believed_other j next bs ne = find-put_value belief_key k _ bs ∙ rw ne refl

  believed_self :
      (next : RotomState) (bs : List Belief)
      → (k == k) ≡ true
      → find belief_key k (put_value belief_key (record { device_id = k; state = next }) bs)
        ≡ some (record { device_id = k; state = next })
  believed_self next bs hit = find-put_value belief_key k _ bs ∙ rw hit refl

  loop_view-take_device_other :
      (r : RotomDevice) (l : Looped)
      → is_box r ≡ false
      → loop_view (take_device p ours r l) ≡ loop_view l
  unfolding take_device
  loop_view-take_device_other r l other = elim (Option-cases (match_device p.lower r ours)) [
    | inl e ↦ rw (take_device, e) refl
    | inr (j, e) ↦
        let ne : (j == k) ≡ false = rw e at other in
        let seen : is_matched k (add_seen j l.matched) ≡ is_matched k l.matched =
          is_matched-add_seen k j l.matched ∙ rw ne refl in
        rw (take_device, e)
          (λ i. (
            write-devices_other j (next_state r) ne (cache_workers p j r.workers l.state) i,
            find miss_key k (write-misses j (next_state r) (cache_workers p j r.workers l.state) i),
            seen i,
            believed_other j (next_state r) l.believed ne i,
          ))
  ]

  loop_view-take_device_self :
      (r : RotomDevice) (l : Looped) {d : OurDevice}
      → is_box r ≡ true
      → find our_key k ours ≡ some d
      → find our_key k l.state.devices ≡ some d
      → loop_view (take_device p ours r l) ≡ seen_view d r (loop_view l)
  unfolding take_device
  loop_view-take_device_self r l {d} self read held =
      let e : match_device p.lower r ours ≡ some k = same_number_eq _ _ self in
      let hit : (k == k) ≡ true = ==_refl k in
      let seen : is_matched k (add_seen k l.matched) ≡ true =
        is_matched-add_seen k k l.matched ∙ rw hit refl in
      rw (take_device, e)
        (λ i. (
          write-devices_self (next_state r) read (cache_workers p k r.workers l.state) held i,
          find miss_key k (write-misses k (next_state r) (cache_workers p k r.workers l.state) i),
          seen i,
          believed_self (next_state r) l.believed hit i,
        ))

  pub loop_view_unseen :
      (rs : List RotomDevice) (l : Looped)
      → count_if is_box rs ≡ 0
      → loop_view (take_devices p ours rs l) ≡ loop_view l
  unfolding take_devices
  loop_view_unseen [] l n = refl
  loop_view_unseen (r ∷ rs) l n = elim (Bool-cases (is_box r)) [
    | inl self ↦ absurd (ground arith)
    | inr other ↦
        loop_view_unseen rs (take_device p ours r l) (rw other at n)
        ∙ loop_view-take_device_other r l other
  ]

  abbrev pub loop_left : OurDevice → Option RotomDevice → LoopView → LoopView
  loop_left d none v = v
  loop_left d (some r) v = seen_view d r v

  -- If at most one device is the box, its row, what is believed of it and whether it counts as matched are
  -- as that device says.
  pub loop_view_lem :
      (rs : List RotomDevice) (l : Looped) {d : OurDevice}
      → count_if is_box rs ≤ 1
      → find our_key k ours ≡ some d
      → find our_key k l.state.devices ≡ some d
      → loop_view (take_devices p ours rs l) ≡ loop_left d (shown rs) (loop_view l)
  unfolding take_devices shown
  loop_view_lem [] l n read held = refl
  loop_view_lem (r ∷ rs) l {d} n read held = elim (Bool-cases (is_box r)) [
    | inl self ↦ rw self (
        loop_view_unseen rs (take_device p ours r l) (ground arith)
        ∙ loop_view-take_device_self r l self read held)
    | inr other ↦
        let kept = loop_view-take_device_other r l other in
        rw other (
          loop_view_lem rs (take_device p ours r l) (rw other at n) read (ap (λ v. v.0) kept ∙ held)
          ∙ ap (loop_left d (shown rs)) kept)
  ]
