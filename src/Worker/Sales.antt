-- ===== src/Worker/Sales.antt =====
-- `ensureSale` and `listSaleOrders` of apps/worker/src/orders/order.repository.ts, and `scanOrders`
-- of apps/worker/src/reconciliation/reconciliation.service.ts, which reads all its pages.
use bookipi_technical_test.Prelude.{
  ℕ, zero, suc, ◌≤◌, ◌≡◌, ◌⊎◌, refl, ap, ◌∙◌, Bool, true, false, not, ◌&&◌, ◌||◌, Option, none,
  some, List, [], ◌∷◌, map, arith, length, take, drop, if◌then◌else◌, ℤ, pos, negsuc, ltb_ℤ,
  Outcome, ok, throw, plain_error,
}
use std.Path.{fun_ext}
use bookipi_technical_test.Text.{Text, text_eq, text_eq_iff}
use bookipi_technical_test.Shared.SaleState.{JsNumber, whole, not_finite}
use bookipi_technical_test.Worker.Env.{WorkerEnv}
use bookipi_technical_test.Worker.Postgres.{Tables, OrderRow, SaleRow, find_sale, insert_sale}
use bookipi_technical_test.Worker.Pages.{scan_pages, scan_pages_lem}
use bookipi_technical_test.Worker.Orders.{DurableOrder, from_row}

abbrev pub eq_ℤ : ℤ → ℤ → Bool
eq_ℤ a b = not (ltb_ℤ a b || ltb_ℤ b a)

-- `Number(row.starts_ms) === Date.parse(text)`
abbrev pub same_instant : ℤ → JsNumber → Bool
same_instant n (whole m) = eq_ℤ n m
same_instant n not_finite = false

-- The row that the worker's settings ask for; `timestamptz` is how Postgres reads a text as an instant.
abbrev pub wanted_sale : (Text → ℤ) → WorkerEnv → SaleRow
wanted_sale timestamptz env = record {
  id = env.sale_id;
  name = env.sale_name;
  total_stock = env.sale_total_stock;
  starts_ms = timestamptz env.sale_starts_at;
  ends_ms = timestamptz env.sale_ends_at;
}

-- No drift between the row on file and the settings.
abbrev pub agrees : (Text → JsNumber) → WorkerEnv → Option SaleRow → Bool
agrees parse_date env none = false
agrees parse_date env (some r) =
    text_eq r.name env.sale_name
    && (eq_ℤ r.total_stock env.sale_total_stock
        && (same_instant r.starts_ms (parse_date env.sale_starts_at)
            && same_instant r.ends_ms (parse_date env.sale_ends_at)))

unfoldable pub ensure_sale :
    (Text → ℤ) → (Text → JsNumber) → WorkerEnv → Tables → Outcome (Unit {0}) × Tables
ensure_sale timestamptz parse_date env t = inserted (insert_sale (wanted_sale timestamptz env) t)
  where
    inserted : Outcome Tables → Outcome (Unit {0}) × Tables
    inserted (throw e) = (throw e, t)
    inserted (ok t') =
        if agrees parse_date env (find_sale env.sale_id t'.sales)
        then (ok tt, t')
        else (throw plain_error, t')

eq_ℤ_lem : (a b : ℤ) → eq_ℤ a b ≡ true → a ≡ b
eq_ℤ_lem (pos m) (pos n) h = ground (arith, h)
eq_ℤ_lem (pos m) (negsuc n) h = ground (arith, h)
eq_ℤ_lem (negsuc m) (pos n) h = ground (arith, h)
eq_ℤ_lem (negsuc m) (negsuc n) h = ground (arith, h)

same_instant_lem : (n : ℤ) (d : JsNumber) → same_instant n d ≡ true → d ≡ whole n
same_instant_lem n (whole m) h = ground (arith, eq_ℤ_lem n m h)
same_instant_lem n not_finite h = absurd (ground (arith, h))

-- The row that the settings spell out: their name and stock, and the two instants that the code's own
-- clock reads in their texts.
abbrev pub IsConfigured : (Text → JsNumber) → WorkerEnv → SaleRow → Type 0
IsConfigured parse_date env r =
    (r.name ≡ env.sale_name)
    × (r.total_stock ≡ env.sale_total_stock)
    × (parse_date env.sale_starts_at ≡ whole r.starts_ms)
    × (parse_date env.sale_ends_at ≡ whole r.ends_ms)

agrees-IsConfigured :
    (parse_date : Text → JsNumber) (env : WorkerEnv) (o : Option SaleRow)
    → agrees parse_date env o ≡ true
    → (r : SaleRow) × (o ≡ some r) × IsConfigured parse_date env r
agrees-IsConfigured parse_date env none h = absurd (ground (arith, h))
agrees-IsConfigured parse_date env (some r) h = (
  r,
  refl,
  ground (
    arith,
    h,
    text_eq_iff r.name env.sale_name,
    eq_ℤ_lem r.total_stock env.sale_total_stock,
    same_instant_lem r.starts_ms (parse_date env.sale_starts_at),
    same_instant_lem r.ends_ms (parse_date env.sale_ends_at),
  ),
)

ensured :
    (timestamptz : Text → ℤ) (parse_date : Text → JsNumber) (env : WorkerEnv) (t t' : Tables)
    → ensure_sale timestamptz parse_date env t ≡ (ok tt, t')
    → ((t' ≡ t) ⊎ ((find_sale env.sale_id t.sales ≡ none) × (t'.orders ≡ t.orders)))
      × (agrees parse_date env (find_sale env.sale_id t'.sales) ≡ true)
      × (ensure_sale timestamptz parse_date env t' ≡ (ok tt, t'))
unfolding ensure_sale insert_sale
ensured timestamptz parse_date env t t' h = ground arith

-- The boot of the worker goes on only with a sale on file under the identity of the settings whose name,
-- stock and instants are those of the settings, as the code reads them; a sale that was on file is left
-- as it was, with all else, and the orders are left alone where there was none; and booting once more
-- then changes nothing.
pub ensure_sale_lem :
    (timestamptz : Text → ℤ) (parse_date : Text → JsNumber) (env : WorkerEnv) (t t' : Tables)
    → ensure_sale timestamptz parse_date env t ≡ (ok tt, t')
    → ((r : SaleRow) × (find_sale env.sale_id t'.sales ≡ some r) × IsConfigured parse_date env r)
      × ((t' ≡ t) ⊎ ((find_sale env.sale_id t.sales ≡ none) × (t'.orders ≡ t.orders)))
      × (ensure_sale timestamptz parse_date env t' ≡ (ok tt, t'))
ensure_sale_lem timestamptz parse_date env t t' h =
    let e = ensured timestamptz parse_date env t t' h in
    (agrees-IsConfigured parse_date env (find_sale env.sale_id t'.sales) e.1, e.0, e.2)

-- `ORDER BY user_id`; `before` is the collation's order.
unfoldable pub insert_sorted : (Text → Text → Bool) → OrderRow → List OrderRow → List OrderRow
insert_sorted before row [] = row ∷ []
insert_sorted before row (r ∷ rs) =
    let rest = insert_sorted before row rs in
    if before row.user_id r.user_id then row ∷ r ∷ rs else r ∷ rest

unfoldable pub sorted_of_sale : (Text → Text → Bool) → Text → List OrderRow → List OrderRow
sorted_of_sale before sale [] = []
sorted_of_sale before sale (r ∷ rs) =
    let rest = sorted_of_sale before sale rs in
    if text_eq r.sale_id sale then insert_sorted before r rest else rest

-- `listSaleOrders`: `… WHERE sale_id=$1 ORDER BY user_id OFFSET $2 LIMIT $3`
unfoldable pub list_sale_orders :
    (Text → Text → Bool) → WorkerEnv → Tables → ℕ → ℕ → List DurableOrder
list_sale_orders before env t offset limit =
    map from_row (take limit (drop offset (sorted_of_sale before env.sale_id t.orders)))

-- `scanOrders`
unfoldable pub scan_orders :
    (Text → Text → Bool) → WorkerEnv → Tables → ℕ → Option (List DurableOrder)
scan_orders before env t fuel =
    let count = env.worker_reconcile_scan_count in
    scan_pages (λ offset. list_sale_orders before env t offset count) count fuel 0 []

length-map {ℓ κ} :
    {A : Type ℓ} {B : Type κ} (f : A → B) (xs : List A) → length (map f xs) ≡ length xs
length-map f [] = refl
length-map f (x ∷ xs) = rw (length-map f xs)

map-page {ℓ κ} :
    {A : Type ℓ} {B : Type κ} (f : A → B) (n o : ℕ) (xs : List A)
    → map f (take n (drop o xs)) ≡ take n (drop o (map f xs))
map-page f zero o xs = refl
map-page f (suc n) zero [] = refl
map-page f (suc n) zero (x ∷ xs) = ap (λ r. f x ∷ r) (map-page f n zero xs)
map-page f (suc n) (suc o) [] = refl
map-page f (suc n) (suc o) (x ∷ xs) = map-page f (suc n) o xs

-- The pages of the orders of a sale are read to the end: with a positive page size the scan gives each
-- order of the sale once, in the collation's order, in one round more than there are orders.
pub scan_orders_complete :
    (before : Text → Text → Bool) (env : WorkerEnv) (t : Tables)
    → 1 ≤ env.worker_reconcile_scan_count
    → let rows = sorted_of_sale before env.sale_id t.orders in
      scan_orders before env t (suc (length rows)) ≡ some (map from_row rows)
unfolding scan_orders list_sale_orders
scan_orders_complete before env t h =
    let rows = sorted_of_sale before env.sale_id t.orders in
    let count = env.worker_reconcile_scan_count in
    let fuel = suc (length rows) in
    ap (λ (page : ℕ → List DurableOrder). scan_pages page count fuel 0 [])
      (fun_ext (λ o. map-page from_row count o rows))
    ∙ scan_pages_lem (map from_row rows) count (length rows) 0 [] h
        (omega (arith, length-map from_row rows))
