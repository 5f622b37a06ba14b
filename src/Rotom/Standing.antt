-- ===== src/Rotom/Standing.antt =====
-- What the hub holds of one box, by what rotom.ts shows of it at each pass.
use magnemite.Prelude.{
  ℕ, zero, suc, ◌+◌, ◌*◌, ◌/◌, max, ◌≤◌, ◌≡◌, ◌==◌, refl, sym, ap, subst, ◌∙◌, inl, inr,
  Option-cases, Bool-cases, ltb, Bool, true, false, if◌then◌else◌, Option, none, some, List, [],
  ◌∷◌, find, IsKeyed, count_if, or_else,
}
use mathlib.Core.Option
use native.Mathlib.Omega.{arith}
use magnemite.Rotom.{RotomDevice, OurDevice, our_key, same_number}
use magnemite.Rotom.Matching.{next_state, truthy}
use magnemite.Rotom.Sync.{
  Miss, Belief, Syncing, SyncPass, miss_key, with_rotom, clear_row, missed, misses_before_offline,
}
use magnemite.Rotom.Pass.{heard, looped, swept, record_samples, sync_devices}
use magnemite.Rotom.Loop.{is_box, shown}
use magnemite.Rotom.Keyed.{swept-Sound}
use magnemite.Rotom.Passing.{view-swept, left_by, left_by_none}

-- A box is away, or connected and missing from the last lists.
pub data Standing : Type 0 where
  away : Standing
  here : (missing : ℕ) → Standing

-- What happens to it: nothing is heard, it is listed, it is not, or the loop is stopped.
pub data Sighting : Type 0 where
  silence : Sighting
  listed : (connected : Bool) → Sighting
  missing : Sighting
  stopped : Sighting

abbrev pub step_standing : Sighting → Standing → Standing
step_standing silence x = x
step_standing (listed true) x = here 0
step_standing (listed false) x = away
step_standing missing away = away
step_standing missing (here zero) = here 1
step_standing missing (here (suc n)) = away
step_standing stopped away = away
step_standing stopped (here n) = here 0

abbrev pub replay : List Sighting → Standing → Standing
replay [] x = x
replay (o ∷ os) x = step_standing o (replay os x)

abbrev pub stand : Option OurDevice → Option Miss → Standing
stand none m = away
stand (some d) m =
    if d.rotom.connected then here (or_else (Option.map (λ m. m.count) m) 0) else away

abbrev pub standing : ℕ → Syncing → Standing
standing k s = stand (find our_key k s.devices) (find miss_key k s.misses)

abbrev pub sighting_of : Option RotomDevice → Sighting
sighting_of none = missing
sighting_of (some r) = listed (truthy r.is_connected)

unfoldable pub sighting : SyncPass → ℕ → Syncing → Sighting
sighting p k s = elim (heard p s.devices) [
  | none ↦ silence
  | some rs ↦ sighting_of (shown p s.devices k rs)
]

-- A row has the key, and the keys are the rows' own.
unfoldable pub IsRow : ℕ → Syncing → Type 0
IsRow k s = IsKeyed our_key s.devices × ((d : OurDevice) × (find our_key k s.devices ≡ some d))

-- Of what the pass hears, at most one device is the box.
unfoldable pub IsOnce : SyncPass → ℕ → Syncing → Type 0
IsOnce p k s =
    (rs : List RotomDevice) → heard p s.devices ≡ some rs → count_if (is_box p s.devices k) rs ≤ 1

count-standing :
    (n : ℕ)
    → (if ltb (n + 1) misses_before_offline then here (n + 1) else away)
      ≡ step_standing missing (here n)
count-standing zero = refl
count-standing (suc n) =
    let late : ltb (suc n + 1) misses_before_offline ≡ false = ground arith in rw late refl

left_by-stand :
    (p : SyncPass) (k : ℕ) (s : Syncing) (rs : List RotomDevice) (d : OurDevice)
    (u : IsKeyed our_key s.devices) (once : count_if (is_box p s.devices k) rs ≤ 1)
    (held : find our_key k s.devices ≡ some d) (o : Option RotomDevice)
    → (let v = left_by p k s rs u once held o in stand v.0 v.1)
      ≡ step_standing (sighting_of o) (stand (some d) (find miss_key k s.misses))
unfolding next_state
left_by-stand p k s rs d u once held (some r) = elim (Bool-cases (truthy r.is_connected)) [
  | inl e ↦ rw e refl
  | inr e ↦ rw e refl
]
left_by-stand p k s rs d u once held none = elim (Bool-cases d.rotom.connected) [
  | inr e ↦ rw e refl
  | inl e ↦
      let counted = count-standing (missed k s.misses) in
      elim (Bool-cases (ltb (missed k s.misses + 1) misses_before_offline)) [
        | inl e' ↦ rw (e, e') (rw e' at counted)
        | inr e' ↦ rw (e, e') (rw e' at counted)
      ]
]

abbrev pub KeepsRows : Syncing → Syncing → Type 0
KeepsRows s t = (t.devices ≡ s.devices) × (t.misses ≡ s.misses)

pub record_samples-kept :
    (p : SyncPass) (ours : List OurDevice) (bs : List Belief) (flipped : List ℕ) (s : Syncing)
    → KeepsRows s (record_samples p ours bs flipped s)
unfolding record_samples
record_samples-kept p ours bs flipped s = elim (Bool-cases (p.rotom_retention_days == 0)) [
  | inl e ↦ rw (record_samples, e) (refl, refl)
  | inr e ↦
      elim (Bool-cases
        (same_number (some (p.now / (max p.rotom_sample_seconds 1 * 1000))) s.last_slot)) [
          | inl e' ↦ rw (record_samples, e, e') (refl, refl)
          | inr e' ↦ rw (record_samples, e, e') (refl, refl)
        ]
]

-- A pass does to what is held of a box what is seen of it in the pass.
pub sync_devices-standing :
    (p : SyncPass) (k : ℕ) (s : Syncing)
    → IsRow k s
    → IsOnce p k s
    → standing k (sync_devices p s).0 ≡ step_standing (sighting p k s) (standing k s)
unfolding sync_devices sighting IsRow IsOnce
sync_devices-standing p k s (u, (d, held)) once = elim (Option-cases (heard p s.devices)) [
  | inl e ↦ rw (sync_devices, sighting, e) refl
  | inr (rs, e) ↦
      let v = view-swept p k s rs u (once rs e) held in
      let kept =
        record_samples-kept p s.devices (looped p rs s).believed (swept p rs s).1
          (swept p rs s).0 in
      let once' = once rs e in
      rw (sync_devices, sighting, e)
        ((λ i. stand (find our_key k (kept.0 i)) (find miss_key k (kept.1 i)))
          ∙ ap (λ v. stand v.0 v.1) v
          ∙ left_by-stand p k s rs d u once' held (shown p s.devices k rs)
          ∙ ap
              (λ o.
                step_standing (sighting_of (shown p s.devices k rs))
                  (stand o (find miss_key k s.misses)))
              (sym held))
]

left_by-row :
    (p : SyncPass) (k : ℕ) (s : Syncing) (rs : List RotomDevice) (d : OurDevice)
    (u : IsKeyed our_key s.devices) (once : count_if (is_box p s.devices k) rs ≤ 1)
    (held : find our_key k s.devices ≡ some d) (o : Option RotomDevice)
    → (e : OurDevice) × ((left_by p k s rs u once held o).0 ≡ some e)
left_by-row p k s rs d u once held (some r) = (with_rotom (next_state r) d, refl)
left_by-row p k s rs d u once held none = elim (left_by_none p k s rs u once held) [
  | inl (m, e) ↦ (d, ap (λ v. v.0) e)
  | inr e ↦ (clear_row d, ap (λ v. v.0) e)
]

pub sync_devices-IsRow :
    (p : SyncPass) (k : ℕ) (s : Syncing) → IsRow k s → IsOnce p k s → IsRow k (sync_devices p s).0
unfolding sync_devices IsRow IsOnce
sync_devices-IsRow p k s (u, (d, held)) once = elim (Option-cases (heard p s.devices)) [
  | inl e ↦ rw (sync_devices, e) (u, (d, held))
  | inr (rs, e) ↦
      let kept =
        record_samples-kept p s.devices (looped p rs s).believed (swept p rs s).1
          (swept p rs s).0 in
      let row = left_by-row p k s rs d u (once rs e) held (shown p s.devices k rs) in
      rw (sync_devices, e)
        (
          subst (IsKeyed our_key) (sym kept.0) (swept-Sound p rs s u).0,
          (
            row.0,
            ap (find our_key k) kept.0
                ∙ ap (λ v. v.0) (view-swept p k s rs u (once rs e) held)
                ∙ row.1,
          ),
        )
]
