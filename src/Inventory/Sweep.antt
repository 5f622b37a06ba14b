-- ===== src/Inventory/Sweep.antt =====
-- `sweepOffline` takes every stale device offline, and no other.
use magnemite.Prelude.{
  ℕ, ◌≡◌, ◌∙◌, ◌==◌, ap, refl, if◌then◌else◌, Bool, false, none, List, [], ◌∷◌, All, All-map, map,
  keep, length, find, IsKeyed, arith, ==_refl,
}
use magnemite.Inventory.{Presence, is_stale, is_one_of, set_offline, sweep_offline}

abbrev presence_key : Presence → ℕ
presence_key d = d.id

abbrev pub swept : ℕ → ℕ → Presence → Presence
swept now timeout_seconds d =
    if is_stale now timeout_seconds d then record d { online = false } else d

apart :
    (k : ℕ) (ds : List Presence) → find presence_key k ds ≡ none → All (λ d. (k == d.id) ≡ false) ds
unfolding find
apart k [] e = tt
apart k (d ∷ ds) e = (ground arith, apart k ds (ground arith))

module _ (p : Presence → Bool) where
  kept_apart :
      (k : ℕ) (ds : List Presence) → find presence_key k ds ≡ none → is_one_of (keep p ds) k ≡ false
  unfolding find
  kept_apart k [] e = refl
  kept_apart k (d ∷ ds) e = ground (arith, kept_apart k ds)

  IsChosen : List Presence → Presence → Type 0
  IsChosen ds d = is_one_of (keep p ds) d.id ≡ p d

  IsChosen-head :
      (x : Presence) (xs : List Presence) → find presence_key x.id xs ≡ none → IsChosen (x ∷ xs) x
  unfolding IsChosen
  IsChosen-head x xs u = ground (arith, ==_refl x.id, kept_apart x.id xs u)

  IsChosen-tail :
      (x d : Presence) (xs : List Presence)
      → (x.id == d.id) ≡ false
      → IsChosen xs d
      → IsChosen (x ∷ xs) d
  unfolding IsChosen
  IsChosen-tail x d xs e h = ground (arith, h)

  All-IsChosen : (xs : List Presence) → IsKeyed presence_key xs → All (IsChosen xs) xs
  All-IsChosen [] u = tt
  All-IsChosen (x ∷ xs) (u, us) =
      (IsChosen-head x xs u, both xs (apart x.id xs u) (All-IsChosen xs us))
    where
      both :
          (ds : List Presence)
          → All (λ d. (x.id == d.id) ≡ false) ds
          → All (IsChosen xs) ds
          → All (IsChosen (x ∷ xs)) ds
      both [] a h = tt
      both (d ∷ ds) (a, rest) (c, cs) = (IsChosen-tail x d xs a c, both ds rest cs)

map-All {ℓ κ} :
    {A : Type ℓ} {B : Type κ} (f g : A → B) (xs : List A)
    → All (λ x. f x ≡ g x) xs
    → map f xs ≡ map g xs
map-All f g [] h = refl
map-All f g (x ∷ xs) (e, h) = rw (e, map-All f g xs h) refl

swept_all :
    (now timeout_seconds : ℕ) (ds : List Presence)
    → IsKeyed presence_key ds
    → set_offline (keep (is_stale now timeout_seconds) ds) ds ≡ map (swept now timeout_seconds) ds
unfolding IsChosen
swept_all now timeout_seconds ds keyed =
    let p = is_stale now timeout_seconds in
    map-All _ (swept now timeout_seconds) ds (
      All-map (IsChosen p ds) _ ds (λ d c. ap (λ b. if b then record d { online = false } else d) c)
        (All-IsChosen p ds keyed))

none_offline : (ds : List Presence) → ds ≡ set_offline [] ds
none_offline [] = refl
none_offline (d ∷ ds) = ap (λ rest. d ∷ rest) (none_offline ds)

-- The sweep by the keys of the stale devices, where keys are distinct, takes each device offline
-- that is online and has not been seen within the timeout, or never, and no other.
pub sweep_offline_lem :
    (now timeout_seconds : ℕ) (ds : List Presence)
    → IsKeyed (λ d. d.id) ds
    → (sweep_offline now timeout_seconds ds).0 ≡ map (swept now timeout_seconds) ds
unfolding sweep_offline
sweep_offline_lem now timeout_seconds ds keyed =
    some_or_none (keep (is_stale now timeout_seconds) ds) ∙ swept_all now timeout_seconds ds keyed
  where
    some_or_none :
        (stale : List Presence)
        → (let out : List Presence × ℕ =
              if length stale == 0 then (ds, 0) else (set_offline stale ds, length stale) in
            out.0 ≡ set_offline stale ds)
    some_or_none [] = none_offline ds
    some_or_none (x ∷ xs) = let many : (length (x ∷ xs) == 0) ≡ false = ground arith in rw many refl
