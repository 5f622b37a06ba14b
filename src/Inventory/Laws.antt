-- ===== src/Inventory/Laws.antt =====
-- What a heartbeat may say of the packages of a box.
use magnemite.Prelude.{
  All-map, ◌≡◌, ◌∙◌, refl, sym, ap, subst, inl, inr, Bool-cases, if◌then◌else◌, Bool, true, false,
  not, ◌&&◌, ◌||◌, String, str_eq, some, List, [], ◌∷◌, All, arith, eq_iff, if_both,
}
use magnemite.Inventory.{
  PackageRow, PackageInfo, find_package, merged, upsert, apply_packages, is_reported, set_vanished,
  sync_packages, is_vanished, is_same,
}

-- Installed, for all that the hub knows, but not in the heartbeat.
abbrev pub is_gone : List PackageInfo → PackageRow → Bool
is_gone pkgs r = r.installed && not (is_reported pkgs r.package_name)

-- A row that is gone is one of those that were read.
abbrev IsOld : List PackageRow → List PackageInfo → PackageRow → Type 0
IsOld existing pkgs r = (not (is_gone pkgs r) || is_vanished existing pkgs r.package_name) ≡ true

upsert-All :
    (P : PackageRow → Type 0) (row : PackageRow) (rows : List PackageRow)
    → P row
    → All P rows
    → All P (upsert row rows)
unfolding upsert
upsert-All P row [] p h = (p, tt)
upsert-All P row (r ∷ rs) p (q, h) = elim (Bool-cases (str_eq r.package_name row.package_name)) [
  | inl y ↦ rw y (p, h)
  | inr n ↦ rw n (q, upsert-All P row rs p h)
]

str_eq_refl : (s : String) → str_eq s s ≡ true
str_eq_refl s = (eq_iff s s).1 refl

module _ (pkgs : List PackageInfo) where
  IsOld-cons :
      (x : PackageRow) (xs : List PackageRow) (r : PackageRow)
      → IsOld xs pkgs r
      → IsOld (x ∷ xs) pkgs r
  IsOld-cons x xs r h = ground (arith, h)

  IsOld-self : (x : PackageRow) (xs : List PackageRow) → IsOld (x ∷ xs) pkgs x
  IsOld-self x xs = let e = str_eq_refl x.package_name in ground (arith, e)

  existing-IsOld : (xs : List PackageRow) → All (IsOld xs pkgs) xs
  existing-IsOld [] = tt
  existing-IsOld (x ∷ xs) = (
    IsOld-self x xs,
    All-map (IsOld xs pkgs) (IsOld (x ∷ xs) pkgs) xs (IsOld-cons x xs) (existing-IsOld xs),
  )

  apply_packages-IsOld :
      (existing : List PackageRow) (some_of rows : List _)
      → All (λ (p : PackageInfo). is_reported pkgs p.package_name ≡ true) some_of
      → All (IsOld existing pkgs) rows
      → All (IsOld existing pkgs) (apply_packages existing some_of rows)
  unfolding apply_packages
  apply_packages-IsOld existing [] rows k h = h
  apply_packages-IsOld existing (p ∷ ps) rows (e, k) h =
      let was = find_package p.package_name existing in
      apply_packages-IsOld existing ps _ k (
        if_both (All (IsOld existing pkgs)) (is_same (merged p was) was) _ _ h
          (upsert-All (IsOld existing pkgs) (merged p was) rows (ground (arith, e)) h))

  set_vanished-clears :
      (existing rows : List PackageRow)
      → All (IsOld existing pkgs) rows
      → All (λ r. is_gone pkgs r ≡ false) (set_vanished existing pkgs rows)
  unfolding set_vanished
  set_vanished-clears existing [] h = tt
  set_vanished-clears existing (r ∷ rs) (p, h) =
      (ground (arith, p), set_vanished-clears existing rs h)

  reported-cons :
      (p : PackageInfo) (ps : List PackageInfo)
      → All (λ (q : PackageInfo). is_reported ps q.package_name ≡ true) ps
      → All (λ (q : PackageInfo). is_reported (p ∷ ps) q.package_name ≡ true) (p ∷ ps)
  unfolding is_reported
  reported-cons p ps h = (
    ground (arith, str_eq_refl p.package_name),
    All-map (λ (q : PackageInfo). is_reported ps q.package_name ≡ true)
        (λ (q : PackageInfo). is_reported (p ∷ ps) q.package_name ≡ true) ps
        (λ q e. ground (arith, e)) h,
  )

All-reported :
    (ps : List PackageInfo) → All (λ (q : PackageInfo). is_reported ps q.package_name ≡ true) ps
All-reported [] = tt
All-reported (p ∷ ps) = reported-cons [] p ps (All-reported ps)

-- After a heartbeat with the whole inventory no package counts as installed that the heartbeat
-- does not list.
pub sync_packages_inventory :
    (pkgs : List PackageInfo) (existing : List PackageRow)
    → All (λ r. is_gone pkgs r ≡ false) (sync_packages true pkgs existing)
unfolding sync_packages
sync_packages_inventory pkgs existing = set_vanished-clears pkgs existing _ (
    apply_packages-IsOld pkgs existing pkgs existing (All-reported pkgs)
      (existing-IsOld pkgs existing))

find-upsert_ne :
    (name : String) (row : PackageRow) (rows : List PackageRow)
    → str_eq row.package_name name ≡ false
    → find_package name (upsert row rows) ≡ find_package name rows
unfolding find_package upsert
find-upsert_ne name row [] e = rw e refl
find-upsert_ne name row (r ∷ rs) e = elim (Bool-cases (str_eq r.package_name row.package_name)) [
  | inl y ↦
      let other : str_eq r.package_name name ≡ false =
        subst (λ t. str_eq t name ≡ false) (sym ((eq_iff r.package_name row.package_name).0 y)) e in
      rw y (rw (e, other) refl)
  | inr n ↦
      rw n
        (ap (λ o. if str_eq r.package_name name then some r else o) (find-upsert_ne name row rs e))
]

apply_packages_unreported :
    (name : String) (existing : List PackageRow) (ps : List PackageInfo) (rows : List PackageRow)
    → is_reported ps name ≡ false
    → find_package name (apply_packages existing ps rows) ≡ find_package name rows
unfolding apply_packages is_reported
apply_packages_unreported name existing [] rows e = refl
apply_packages_unreported name existing (p ∷ ps) rows e =
    let was = find_package p.package_name existing in
    let here : str_eq p.package_name name ≡ false = ground arith in
    let later : is_reported ps name ≡ false = ground arith in
    apply_packages_unreported name existing ps _ later
    ∙ if_both (λ rs. find_package name rs ≡ find_package name rows) (is_same (merged p was) was) _ _
        refl (find-upsert_ne name (merged p was) rows here)

-- A heartbeat without the inventory leaves the row of a package that it does not list as it was.
pub sync_packages_unreported :
    (pkgs : List PackageInfo) (existing : List PackageRow) (name : String)
    → is_reported pkgs name ≡ false
    → find_package name (sync_packages false pkgs existing) ≡ find_package name existing
unfolding sync_packages
sync_packages_unreported pkgs existing name e =
    apply_packages_unreported name existing pkgs existing e
