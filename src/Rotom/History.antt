-- ===== src/Rotom/History.antt =====
-- The history that a pass of rotom.ts writes, against the rows that it leaves.
use magnemite.Prelude.{
  ℕ, ◌*◌, ◌/◌, max, ◌==◌, ◌≤◌, ◌≡◌, ◌≢◌, refl, sym, ap, subst, ◌∙◌, inl, inr, Option-cases, true,
  false, some, List, [], ◌∷◌, ◌++◌, map, keep, All, keep-All, All-map, find, IsKeyed, keyed-AreHeld,
  count_if, arith,
}
use magnemite.Rotom.{RotomDevice, OurDevice, our_key, same_number}
use magnemite.Rotom.Matching.{next_state}
use magnemite.Rotom.Sync.{Belief, RotomSampleRow, Syncing, SyncPass, with_rotom, clear_row}
use magnemite.Rotom.Pass.{
  sample_of, sample_row, was_matched, heard, looped, swept, record_samples, sync_devices,
}
use magnemite.Rotom.Keyed.{swept-Sound}
use magnemite.Rotom.Loop.{is_box, shown}
use magnemite.Rotom.Passing.{view-swept, left_by, believed-looped, believed_by, left_by_none}
use magnemite.Rotom.Standing.{IsOnce, record_samples-kept}

-- The row of the history says of the box what its own row says.
unfoldable pub Agrees : (now : ℕ) → List OurDevice → RotomSampleRow → Type 0
Agrees now rows w =
    (e : OurDevice) × (find our_key w.device_id rows ≡ some e)
    × (w ≡ sample_of now w.device_id e.rotom.connected e.rotom)

-- A box of the table that at most one of the devices is.
abbrev Known : SyncPass → Syncing → List RotomDevice → OurDevice → Type 0
Known p s rs d =
    (count_if (is_box p s.devices d.id) rs ≤ 1) × (find our_key d.id s.devices ≡ some d)

module _ (p : SyncPass) (s : Syncing) (rs : List RotomDevice) (u : IsKeyed our_key s.devices) where
  abbrev row_of : OurDevice → RotomSampleRow
  row_of d = sample_row p.now (looped p rs s).believed (swept p rs s).1 d

  row_of-Agrees :
      (d : OurDevice)
      → count_if (is_box p s.devices d.id) rs ≤ 1
      → find our_key d.id s.devices ≡ some d
      → Agrees p.now (swept p rs s).0.devices (row_of d)
  unfolding sample_row next_state Agrees find
  row_of-Agrees d once held = elim (Option-cases (shown p s.devices d.id rs)) [
    | inr (r, e) ↦
        let v = view-swept p d.id s rs u once held ∙ ap (left_by p d.id s rs u once held) e in
        let b =
          believed-looped p d.id s rs u once held ∙ ap (believed_by p d.id s rs u once held) e in
        (with_rotom (next_state r) d, ap (λ v. v.0) v, rw (b, ap (λ v. v.2) v) refl)
    | inl e ↦
        let v = view-swept p d.id s rs u once held ∙ ap (left_by p d.id s rs u once held) e in
        let b =
          believed-looped p d.id s rs u once held ∙ ap (believed_by p d.id s rs u once held) e in
        elim (left_by_none p d.id s rs u once held) [
          | inl (m, same) ↦
              let v' = v ∙ same in (d, ap (λ v. v.0) v', rw (b, ap (λ v. v.2) v') refl)
          | inr lost ↦
              let v' = v ∙ lost in (clear_row d, ap (λ v. v.0) v', rw (b, ap (λ v. v.2) v') refl)
        ]
  ]

  rows_of-Agree :
      (ds : List OurDevice)
      → All (Known p s rs) ds
      → All (Agrees p.now (swept p rs s).0.devices) (map row_of ds)
  rows_of-Agree [] h = tt
  rows_of-Agree (d ∷ ds) ((once, held), h) = (row_of-Agrees d once held, rows_of-Agree ds h)

  device_id-rows :
      (ds : List OurDevice)
      → map (λ (w : RotomSampleRow). w.device_id) (map row_of ds) ≡ map our_key ds
  unfolding sample_row
  device_id-rows [] = refl
  device_id-rows (d ∷ ds) = ap (λ ks. d.id ∷ ks) (device_id-rows ds)

abbrev slot_of : SyncPass → ℕ
slot_of p = p.now / (max p.rotom_sample_seconds 1 * 1000)

-- The pass writes the history: it hears a list, the history is kept, the slot is new and the insert succeeds.
unfoldable pub Writes : SyncPass → Syncing → Type 0
Writes p s =
    ((rs : List RotomDevice) × (heard p s.devices ≡ some rs))
    × (p.rotom_retention_days ≢ 0)
    × (same_number (some (slot_of p)) s.last_slot ≡ false)
    × (p.stores ≡ true)

record_samples-samples :
    (p : SyncPass) (ours : List OurDevice) (bs : List Belief) (flipped : List ℕ) (s : Syncing)
    → p.rotom_retention_days ≢ 0
    → same_number (some (slot_of p)) s.last_slot ≡ false
    → p.stores ≡ true
    → (record_samples p ours bs flipped s).samples
      ≡ s.samples ++ map (sample_row p.now bs flipped) (keep was_matched ours)
unfolding record_samples
record_samples-samples p ours bs flipped s kept new stored =
    let days : (p.rotom_retention_days == 0) ≡ false = ground arith in
    rw (record_samples, days, new, stored) refl

-- If a pass writes the history and no box is more than one of the listed devices, then it adds one
-- row for each box that Rotom had ever matched, in their order, and each says of its box what the
-- box's row says after the pass.
pub sync_devices-Agrees :
    (p : SyncPass) (s : Syncing)
    → IsKeyed our_key s.devices
    → Writes p s
    → ((k : ℕ) → IsOnce p k s)
    → (rows : List RotomSampleRow) × ((sync_devices p s).0.samples ≡ s.samples ++ rows)
      × (map (λ (w : RotomSampleRow). w.device_id) rows ≡ map our_key (keep was_matched s.devices))
      × All (Agrees p.now (sync_devices p s).0.devices) rows
unfolding sync_devices record_samples Writes IsOnce
sync_devices-Agrees p s u ((rs, e), kept, new, stored) once =
    let ours = s.devices in
    let bs = (looped p rs s).believed in
    let flipped = (swept p rs s).1 in
    let same = record_samples-kept p ours bs flipped (swept p rs s).0 in
    let sound = swept-Sound p rs s u in
    let new' = subst (λ o. same_number (some (slot_of p)) o ≡ false) (sym sound.2) new in
    let made = record_samples-samples p ours bs flipped (swept p rs s).0 kept new' stored in
    let table : List OurDevice = keep was_matched ours in
    let held : All (Known p s rs) table = keep-All (Known p s rs) was_matched ours (
      All-map (λ d. find our_key d.id ours ≡ some d) (Known p s rs) ours
        (λ d h. (once d.id rs e, h)) (keyed-AreHeld our_key ours u)) in
    let rows : List RotomSampleRow = map (row_of p s rs u) table in
    rw (sync_devices, e)
      (
        rows,
        made ∙ ap (λ xs. xs ++ rows) sound.1,
        device_id-rows p s rs u table,
        subst (λ ds. All (Agrees p.now ds) rows) (sym same.0) (rows_of-Agree p s rs u table held),
      )
