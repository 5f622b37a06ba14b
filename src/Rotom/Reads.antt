-- ===== src/Rotom/Reads.antt =====
-- What a pass of rotom.ts leaves to be read of one box: its row, its misses and what is believed of it.
use magnemite.Prelude.{
  ℕ, ◌+◌, ◌==◌, ◌≡◌, refl, sym, ap, subst, ◌∙◌, inl, inr, Bool-cases, ==_iff, ==_refl, ltb,
  if◌then◌else◌, Bool, true, false, not, ◌&&◌, ◌||◌, Option, none, some, String, List, [], ◌∷◌,
  ◌++◌, find, update, find-update_self, find-update_ne, IsKeyed, eq_iff, str_eq, arith, eq_of_some,
  if_both, if_either, or_else,
}
use mathlib.Core.Option
use magnemite.Sources.Stats.{put_value, add_seen}
use magnemite.Rotom.{
  RotomState, OurDevice, our_key, same_flag, same_maybe, same_text, same_number, same_visible_state,
  same_instant,
}
use magnemite.Rotom.Sync.{
  Miss, Syncing, miss_key, delete_value, clear_row, misses_before_offline, missed, is_matched,
  sweep_device, sweep,
}

same_maybe_eq {ℓ} :
    {A : Type ℓ} (same : A → A → Bool)
    → ((a b : A) → same a b ≡ true → a ≡ b)
    → (o p : Option A) → same_maybe same o p ≡ true
    → o ≡ p
same_maybe_eq same eq none none e = refl
same_maybe_eq same eq none (some b) e = absurd (cc)
same_maybe_eq same eq (some a) none e = absurd (cc)
same_maybe_eq same eq (some a) (some b) e = ap some (eq a b e)

same_text_eq : (o p : Option String) → same_text o p ≡ true → o ≡ p
same_text_eq = same_maybe_eq str_eq (λ a b. (eq_iff a b).0)

pub same_number_eq : (o p : Option ℕ) → same_number o p ≡ true → o ≡ p
same_number_eq = same_maybe_eq (λ a b. a == b) (λ a b. (==_iff a b).0)

same_flag_eq : (a b : Bool) → same_flag a b ≡ true → a ≡ b
same_flag_eq true b e = sym e
same_flag_eq false true e = absurd (cc)
same_flag_eq false false e = refl

pub both_true : (a b : Bool) → (a && b) ≡ true → (a ≡ true) × (b ≡ true)
both_true true b e = (refl, e)
both_true false b e = absurd (cc)

pub same_state_eq :
    (r r' : RotomState)
    → same_visible_state r r' ≡ true
    → same_instant r.last_seen_at r'.last_seen_at ≡ true
    → r ≡ r'
unfolding same_visible_state
same_state_eq r r' e l =
    let (e, n) = both_true _ _ e in
    let (e, m) = both_true _ _ e in
    let (e, k) = both_true _ _ e in
    let (e, j) = both_true _ _ e in
    let (e, i) = both_true _ _ e in
    let (e, h) = both_true _ _ e in
    let (e, g) = both_true _ _ e in
    let (e, f) = both_true _ _ e in
    let (e, d) = both_true _ _ e in
    let (e, c) = both_true _ _ e in
    let (a, b) = both_true _ _ e in
    λ t. record {
      origin = same_text_eq r.origin r'.origin a t;
      device_id = same_text_eq r.device_id r'.device_id b t;
      connected = same_flag_eq r.connected r'.connected c t;
      worker_count = same_number_eq r.worker_count r'.worker_count d t;
      last_seen_at = same_number_eq r.last_seen_at r'.last_seen_at l t;
      enabled = same_flag_eq r.enabled r'.enabled f t;
      can_be_used = same_flag_eq r.can_be_used r'.can_be_used g t;
      workers_in_use = same_number_eq r.workers_in_use r'.workers_in_use h t;
      in_use = same_flag_eq r.in_use r'.in_use i t;
      version = same_text_eq r.version r'.version j t;
      request_rate = same_number_eq r.request_rate r'.request_rate k t;
      request_ms = same_number_eq r.request_ms r'.request_ms m t;
      stat_workers = same_number_eq r.stat_workers r'.stat_workers n t;
    }

module _ {ℓ} {A : Type ℓ} (key : A → ℕ) where
  pub find-put_value :
      (k : ℕ) (a : A) (xs : List A)
      → find key k (put_value key a xs) ≡ (if key a == k then some a else find key k xs)
  unfolding find put_value
  find-put_value k a [] = refl
  find-put_value k a (x ∷ xs) = ground (arith, find-put_value k a xs)

  find-delete_value :
      (k j : ℕ) (xs : List A)
      → find key k (delete_value key j xs) ≡ (if j == k then none else find key k xs)
  unfolding find
  find-delete_value k j [] = ground arith
  find-delete_value k j (x ∷ xs) = ground (arith, find-delete_value k j xs)

is_matched-append :
    (k j : ℕ) (js : List ℕ) → is_matched k (js ++ j ∷ []) ≡ (j == k || is_matched k js)
is_matched-append k j [] = refl
is_matched-append k j (i ∷ js) = ground (arith, is_matched-append k j js)

pub is_matched-add_seen :
    (k j : ℕ) (js : List ℕ) → is_matched k (add_seen j js) ≡ (j == k || is_matched k js)
is_matched-add_seen k j js = elim (Bool-cases (is_matched j js)) [
  | inr new ↦ rw new (is_matched-append k j js)
  | inl old ↦ elim (Bool-cases (j == k)) [
    | inl same ↦ rw (old, same) (subst (λ i. is_matched i js ≡ true) ((==_iff j k).0 same) old)
    | inr other ↦ rw (old, other) refl
  ]
]

module _ (k : ℕ) where
  -- Of one box: its row, its misses and whether it was flipped.
  abbrev pub view : Syncing × List ℕ → Option OurDevice × Option Miss × Bool
  view (s, flipped) = (find our_key k s.devices, find miss_key k s.misses, is_matched k flipped)

  pub find-update_other :
      (j : ℕ) (f : OurDevice → OurDevice)
      → ((d : OurDevice) → (f d).id ≡ d.id)
      → (other : (j == k) ≡ false) → (xs : List OurDevice)
      → find our_key k (update our_key j f xs) ≡ find our_key k xs
  find-update_other j f same other xs = find-update_ne our_key j f same k xs (λ e. ground arith)

  view-sweep_device_other :
      (matched : List ℕ) (d : OurDevice)
      → (d.id == k) ≡ false
      → (sf : Syncing × List ℕ) → view (sweep_device matched d sf) ≡ view sf
  unfolding sweep_device
  view-sweep_device_other matched d other (s, flipped) =
      let deleted : find miss_key k (delete_value miss_key d.id s.misses)
          ≡ find miss_key k s.misses =
        find-delete_value miss_key k d.id s.misses ∙ rw other refl in
      let flipped_too : is_matched k (add_seen d.id flipped) ≡ is_matched k flipped =
        is_matched-add_seen k d.id flipped ∙ rw other refl in
      if_both (λ t. view t ≡ view (s, flipped)) (is_matched d.id matched || not d.rotom.connected) _
        _ (ap (λ m. (find our_key k s.devices, m, is_matched k flipped)) deleted)
        (if_both (λ t. view t ≡ view (s, flipped))
          (ltb (missed d.id s.misses + 1) misses_before_offline) _ _
          (ap (λ m. (find our_key k s.devices, m, is_matched k flipped))
            (find-put_value miss_key k _ s.misses ∙ rw other refl))
          (λ i. (
            find-update_other d.id clear_row (λ x. refl) other s.devices i,
            deleted i,
            flipped_too i,
          )))

  -- What the box's turn of the sweep leaves, of a row that was read as the one and is now the other.
  abbrev pub sweep_view :
      (matched : Bool)
      → (read row : OurDevice) → Option OurDevice × Option Miss × Bool
      → Option OurDevice × Option Miss × Bool
  sweep_view matched read row (r, m, f) =
      let count = or_else (Option.map (λ m. m.count) m) 0 + 1 in
      if matched || not read.rotom.connected
      then (some row, none, f)
      else if ltb count misses_before_offline
      then (some row, some (record { device_id = k; count = count }), f)
      else (some (clear_row row), none, true)

  view-sweep_device_self :
      (matched : List ℕ) (d row : OurDevice) (sf : Syncing × List ℕ)
      → d.id ≡ k
      → (view sf).0 ≡ some row
      → view (sweep_device matched d sf) ≡ sweep_view (is_matched k matched) d row (view sf)
  unfolding sweep_device
  view-sweep_device_self matched d row (s, flipped) same held =
      let hit : (k == k) ≡ true = ==_refl k in
      let deleted : find miss_key k (delete_value miss_key k s.misses) ≡ none =
        find-delete_value miss_key k k s.misses ∙ rw hit refl in
      let next : Miss = record { device_id = k; count = missed k s.misses + 1 } in
      let put : find miss_key k (put_value miss_key next s.misses) ≡ some next =
        find-put_value miss_key k next s.misses ∙ rw hit refl in
      let cleared : find our_key k (update our_key k clear_row s.devices) ≡ some (clear_row row) =
        find-update_self our_key k clear_row (λ x. refl) s.devices held in
      let flipped_now : is_matched k (add_seen k flipped) ≡ true =
        is_matched-add_seen k k flipped ∙ rw hit refl in
      rw same (
        if_either (λ t. view t ≡ sweep_view (is_matched k matched) d row (view (s, flipped)))
          (is_matched k matched || not d.rotom.connected) _ _ (λ e. rw (e, held, deleted) refl)
          (λ e.
            if_either (λ t. view t ≡ sweep_view (is_matched k matched) d row (view (s, flipped)))
              (ltb (missed k s.misses + 1) misses_before_offline) _ _
              (λ e'. rw (e, e', held, put) refl)
              (λ e'. rw (e, e', cleared, deleted, flipped_now) refl)))

  view-sweep_none :
      (matched : List ℕ) (ours : List OurDevice)
      → find our_key k ours ≡ none
      → (sf : Syncing × List ℕ) → view (sweep ours matched sf) ≡ view sf
  unfolding sweep find
  view-sweep_none matched [] e sf = refl
  view-sweep_none matched (d ∷ ours) e sf = elim (Bool-cases (d.id == k)) [
    | inl same ↦ absurd (cc)
    | inr other ↦
        view-sweep_none matched ours (rw other at e) (sweep_device matched d sf)
        ∙ view-sweep_device_other matched d other sf
  ]

  pub view-sweep :
      (matched : List ℕ) (ours : List OurDevice)
      → IsKeyed our_key ours
      → {read row : OurDevice} → find our_key k ours ≡ some read
      → (sf : Syncing × List ℕ) → (view sf).0 ≡ some row
      → view (sweep ours matched sf) ≡ sweep_view (is_matched k matched) read row (view sf)
  unfolding sweep find
  view-sweep matched [] u e sf held = absurd (cc)
  view-sweep matched (d ∷ ours) (u, us) {read} {row} e sf held = elim (Bool-cases (d.id == k)) [
    | inl hit ↦
        let same = (==_iff _ _).0 hit in
        view-sweep_none matched ours (subst (λ i. find our_key i ours ≡ none) same u) _
        ∙ view-sweep_device_self matched d row sf same held
        ∙ ap (λ r. sweep_view (is_matched k matched) r row (view sf)) (eq_of_some (rw hit at e))
    | inr other ↦
        let kept = view-sweep_device_other matched d other sf in
        view-sweep matched ours us (rw other at e) (sweep_device matched d sf)
          (ap (λ v. v.0) kept ∙ held)
        ∙ ap (λ v. sweep_view (is_matched k matched) read row v) kept
  ]
