-- ===== src/Pagination.antt =====
-- apps/web/src/lib/table-pagination.ts: the page of a table that is shown.
pub mod Pages
use magnemite.Prelude.{
  ℕ, ◌+◌, ◌-◌, ◌*◌, ◌/◌, ◌==◌, min, max, if◌then◌else◌, List, length, take, drop,
}

pub data PageSize : Type 0 where
  ten : PageSize
  twenty_five : PageSize
  fifty : PageSize
  hundred : PageSize
  all : PageSize

pub record TablePagination {ℓ} (A : Type ℓ) : Type ℓ where
  pub rows : List A
  pub page : ℕ
  pub page_count : ℕ
  pub total : ℕ
  pub from : ℕ
  pub to : ℕ

unfoldable pub per_page : PageSize → (total : ℕ) → ℕ
per_page ten total = 10
per_page twenty_five total = 25
per_page fifty total = 50
per_page hundred total = 100
per_page all total = max total 1

-- The quotient rounded up, and at least 1.
unfoldable pub page_count_of : (total per : ℕ) → ℕ
page_count_of total per = max 1 ((total + per - 1) / per)

abbrev pub slice {ℓ} : {A : Type ℓ} → (start end : ℕ) → List A → List A
slice start end rows = take (end - start) (drop start rows)

-- What useTablePagination returns for the page that its state holds.
unfoldable pub paginate {ℓ} : {A : Type ℓ} → List A → PageSize → (page : ℕ) → TablePagination A
unfolding page_count_of per_page
paginate rows size page =
    let total = length rows in
    let per = per_page size total in
    let count = page_count_of total per in
    let current = min page count in
    record {
      rows = slice ((current - 1) * per) (current * per) rows;
      page = current;
      page_count = count;
      total = total;
      from = if total == 0 then 0 else (current - 1) * per + 1;
      to = min (current * per) total;
    }

-- `clampPage`, what setPage makes of a page that is asked for.
unfoldable pub clamp_page : (page_count next : ℕ) → ℕ
clamp_page page_count next = min (max 1 next) page_count
