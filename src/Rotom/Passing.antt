-- ===== src/Rotom/Passing.antt =====
-- What a pass of rotom.ts leaves to be read of one box that at most one device is.
use magnemite.Prelude.{
  ℕ, ◌⊎◌, ◌+◌, not, ltb, if_both, true, ◌≤◌, ◌≡◌, refl, ap, ◌∙◌, inl, inr, Option-cases, Bool,
  false, Option, none, some, List, [], find, IsKeyed, count_if,
}
use magnemite.Rotom.{RotomDevice, OurDevice, our_key}
use magnemite.Rotom.Matching.{next_state}
use magnemite.Rotom.Sync.{
  Miss, Belief, Syncing, SyncPass, miss_key, belief_key, with_rotom, clear_row, missed,
  misses_before_offline, Looped,
}
use magnemite.Rotom.Pass.{looped, swept}
use magnemite.Rotom.Reads.{view, sweep_view, view-sweep}
use magnemite.Rotom.Loop.{is_box, shown, loop_view, loop_left, loop_view_lem, LoopView}

module _ (p : SyncPass) (k : ℕ) (s : Syncing) (rs : List RotomDevice) {d : OurDevice}
    (u : IsKeyed our_key s.devices) (once : count_if (is_box p s.devices k) rs ≤ 1)
    (held : find our_key k s.devices ≡ some d) where
  abbrev missed_before : Option Miss
  missed_before = find miss_key k s.misses

  abbrev l : Looped
  l = looped p rs s

  abbrev before : LoopView p s.devices k
  before = (some d, missed_before, false, none)

  loop_lem :
      loop_view p s.devices k (looped p rs s)
      ≡ loop_left p s.devices k d (shown p s.devices k rs) before
  unfolding find
  loop_lem =
      loop_view_lem p s.devices k rs _ once held held
      ∙ ap (λ o. loop_left p s.devices k d (shown p s.devices k rs) (o, missed_before, false, none))
          held

  abbrev pub left_by : Option RotomDevice → Option OurDevice × Option Miss × Bool
  left_by none = sweep_view k false d d (some d, missed_before, false)
  left_by (some r) = (some (with_rotom (next_state r) d), none, false)

  -- What an unlisted box may be left with: its row and no flip, or the cleared row and a flip.
  pub left_by_none :
      ((m : Option Miss) × (left_by none ≡ (some d, m, false)))
      ⊎ (left_by none ≡ (some (clear_row d), none, true))
  left_by_none =
      if_both Either (not d.rotom.connected) (some d, none, false) _ (inl (none, refl))
        (if_both Either (ltb next.count misses_before_offline) (some d, some next, false)
          (some (clear_row d), none, true) (inl (some next, refl)) (inr refl))
    where
      next : Miss
      next = record { device_id = k; count = missed k s.misses + 1 }

      Either : Option OurDevice × Option Miss × Bool → Type 0
      Either v =
          ((m : Option Miss) × (v ≡ (some d, m, false))) ⊎ (v ≡ (some (clear_row d), none, true))

  abbrev pub believed_by : Option RotomDevice → Option Belief
  believed_by none = none
  believed_by (some r) = some (record { device_id = k; state = next_state r })

  pub view-swept : view k (swept p rs s) ≡ left_by (shown p s.devices k rs)
  view-swept = elim (Option-cases (shown p s.devices k rs)) [
    | inl e ↦
        let v = loop_lem ∙ ap (λ o. loop_left p s.devices k d o before) e in
        view-sweep k l.matched s.devices u held (l.state, []) (ap (λ v. v.0) v)
        ∙ ap (λ v. sweep_view k v.2 d d (v.0, v.1, false)) v
        ∙ rw e refl
    | inr (r, e) ↦
        let v = loop_lem ∙ ap (λ o. loop_left p s.devices k d o before) e in
        view-sweep k l.matched s.devices u held (l.state, []) (ap (λ v. v.0) v)
        ∙ ap (λ v. sweep_view k v.2 d (with_rotom (next_state r) d) (v.0, v.1, false)) v
        ∙ rw e refl
  ]

  pub believed-looped :
      find belief_key k (looped p rs s).believed ≡ believed_by (shown p s.devices k rs)
  believed-looped = elim (Option-cases (shown p s.devices k rs)) [
    | inl e ↦ ap (λ v. v.3) loop_lem ∙ rw e refl
    | inr (r, e) ↦ ap (λ v. v.3) loop_lem ∙ rw e refl
  ]
