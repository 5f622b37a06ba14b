-- ===== src/Pagination/Pages.antt =====
-- The bounds of the page that is shown.
use native.Mathlib.Nat.{le-div_iff_mul-le}
use magnemite.Prelude.{
  false, ℕ, zero, suc, ◌+◌, ◌-◌, ◌*◌, ◌/◌, ◌==◌, ◌≤◌, ◌<◌, ◌≡◌, min, refl, arith, List, [], ◌∷◌,
  length, take, drop,
}
use magnemite.Pagination.{
  PageSize, ten, twenty_five, fifty, hundred, all, per_page, page_count_of, slice, paginate,
}

module _ {ℓ} {A : Type ℓ} where
  length-take-min : (n : ℕ) (xs : List A) → length (take n xs) ≡ min n (length xs)
  length-take-min zero xs = omega arith
  length-take-min (suc n) [] = omega arith
  length-take-min (suc n) (x ∷ xs) = omega (arith, length-take-min n xs)

  length-drop : (n : ℕ) (xs : List A) → length (drop n xs) ≡ length xs - n
  length-drop zero xs = omega arith
  length-drop (suc n) [] = omega arith
  length-drop (suc n) (x ∷ xs) = omega (arith, length-drop n xs)

full_step : (current per : ℕ) → 1 ≤ current → current * per ≡ (current - 1) * per + per
full_step zero per le = omega arith
full_step (suc c) per le = grind arith

-- A page of the table begins before the table ends.
start_lt :
    (total per current : ℕ)
    → 0 < per
    → 0 < total
    → 1 ≤ current
    → current ≤ page_count_of total per
    → (current - 1) * per < total
unfolding page_count_of
start_lt total per zero p t one le = omega arith
start_lt total per (suc zero) p t one le = omega arith
start_lt total per (suc (suc c)) p t one le =
    let q : suc (suc c) ≤ (total + per - 1) / per = omega arith in
    let whole = (le-div_iff_mul-le p).0 q in omega (arith, full_step (suc (suc c)) per one, whole)

per_page_positive : (size : PageSize) (total : ℕ) → 0 < per_page size total
unfolding per_page
per_page_positive ten total = omega arith
per_page_positive twenty_five total = omega arith
per_page_positive fifty total = omega arith
per_page_positive hundred total = omega arith
per_page_positive all total = omega arith

length-slice {ℓ} :
    {A : Type ℓ}
    → (start end : ℕ) (rows : List A)
    → length (slice start end rows) ≡ min (end - start) (length rows - start)
length-slice start end rows =
    omega (arith, length-take-min (end - start) (drop start rows), length-drop start rows)

page_count_positive : (total per : ℕ) → 1 ≤ page_count_of total per
unfolding page_count_of
page_count_positive total per = omega arith

-- With some row and a page of at least 1 in the state, the page shown is one of the table's, it
-- begins at a row, ends at a row not before that and within the table, and holds as many rows as
-- the numbers of its first and its last row say.
pub paginate_lem {ℓ} :
    {A : Type ℓ}
    → (rows : List A) (size : PageSize) (page : ℕ) → 0 < length rows
    → 1 ≤ page
    → let v = paginate rows size page in
      (1 ≤ v.page)
      × (v.page ≤ v.page_count)
      × (1 ≤ v.from)
      × (v.from ≤ v.to)
      × (v.to ≤ length rows)
      × (v.from + length v.rows ≡ v.to + 1)
unfolding paginate
paginate_lem rows size page some_row one =
    let total = length rows in
    let per = per_page size total in
    let p = per_page_positive size total in
    let count = page_count_of total per in
    let current = min page count in
    let c = page_count_positive total per in
    let start = start_lt total per current p some_row (omega arith) (omega arith) in
    let step = full_step current per (omega arith) in
    let shown = length-slice ((current - 1) * per) (current * per) rows in
    let full : (total == 0) ≡ false = ground arith in
    let v = paginate rows size page in
    let from_is : v.from ≡ (current - 1) * per + 1 = rw full refl in
    let to_is : v.to ≡ min (current * per) total = refl in
    let known : length v.rows
        ≡ min (current * per - (current - 1) * per) (total - (current - 1) * per) =
      shown in
    (
      omega arith,
      omega arith,
      omega (arith, from_is),
      omega (arith, from_is, to_is, start, step, p),
      omega arith,
      omega (arith, from_is, to_is, known, start, step, p),
    )
