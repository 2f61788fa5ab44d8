-- ===== src/Worker/Postgres.antt =====
-- The tables of infra/postgres/init/001_schema.sql and the statements of
-- apps/worker/src/orders/order.repository.ts on them. A `timestamptz` is kept as its milliseconds. A
-- row lock and the transaction's advisory lock make the statements of one transaction run as one.
use bookipi_technical_test.Prelude.{
  ℕ, ◌+◌, Bool, true, false, not, ◌&&◌, ◌||◌, Option, none, some, List, [], ◌∷◌, map, leb, length,
  if◌then◌else◌, ℤ, pos, ltb_ℤ, leb_ℤ, Outcome, ok, throw, plain_error,
}
use bookipi_technical_test.Text.{Text, text_eq}
use bookipi_technical_test.Shared.Pattern.{is_upper}
pub mod Laws

-- The statuses that the worker writes; the enum's third, `reserved`, is never written.
pub data DurableOrderStatus : Type 0 where
  persisted compensated : DurableOrderStatus

pub record OrderRow : Type 0 where
  pub id : Text
  pub user_id : Text
  pub sale_id : Text
  pub status : DurableOrderStatus
  pub created_at_ms : ℤ
  pub persisted_at : Option ℕ
  pub request_id : Text

pub record SaleRow : Type 0 where
  pub id : Text
  pub name : Text
  pub total_stock : ℤ
  pub starts_ms : ℤ
  pub ends_ms : ℤ

pub record Tables : Type 0 where
  pub sales : List SaleRow
  pub orders : List OrderRow

abbrev to_lower : ℕ → ℕ
to_lower c = if is_upper c then c + 32 else c

-- A `uuid` column gives back its value in lower case.
unfoldable pub uuid_text : Text → Text
uuid_text t = map to_lower t

-- `SELECT … FROM orders WHERE user_id=$1`
unfoldable pub find_user : Text → List OrderRow → Option OrderRow
find_user user [] = none
find_user user (r ∷ rs) = if text_eq r.user_id user then some r else find_user user rs

-- `orders.id` is the primary key.
unfoldable pub has_id : Text → List OrderRow → Bool
has_id id [] = false
has_id id (r ∷ rs) = text_eq r.id id || has_id id rs

unfoldable pub find_sale : Text → List SaleRow → Option SaleRow
find_sale id [] = none
find_sale id (r ∷ rs) = if text_eq r.id id then some r else find_sale id rs

abbrev is_some {ℓ} : {A : Type ℓ} → Option A → Bool
is_some none = false
is_some (some _) = true

-- `orders_persisted_at_state`
abbrev pub persisted_at_state : OrderRow → Bool
persisted_at_state r = elim r.status [
  | persisted ↦ is_some r.persisted_at
  | compensated ↦ not (is_some r.persisted_at)
]

-- The three checks of the table.
unfoldable pub row_checks : OrderRow → Bool
row_checks r =
    (leb 3 (length r.user_id) && leb (length r.user_id) 64)
    && ((leb 1 (length r.request_id) && leb (length r.request_id) 128) && persisted_at_state r)

-- The foreign key `sale_id REFERENCES sales (id)`.
unfoldable pub has_sale : Text → Tables → Bool
has_sale id t = is_some (find_sale id t.sales)

-- The row as the columns hold it.
abbrev pub stored : OrderRow → OrderRow
stored r = record r { id = uuid_text r.id }

-- `INSERT INTO orders …`: the count of rows, or the violation of a constraint. With
-- `ON CONFLICT (user_id) DO NOTHING` a user who has a row is no violation.
unfoldable pub insert_order : Bool → OrderRow → Tables → Outcome (ℕ × Tables)
insert_order or_nothing row t =
    if not (row_checks row)
    then throw plain_error
    else if is_some (find_user row.user_id t.orders)
    then (if or_nothing then ok (0, t) else throw plain_error)
    else if has_id (uuid_text row.id) t.orders || not (has_sale row.sale_id t)
    then throw plain_error
    else ok (1, record t { orders = stored row ∷ t.orders })

-- The rows of the other users.
unfoldable pub others : Text → List OrderRow → List OrderRow
others user [] = []
others user (r ∷ rs) =
    let rest = others user rs in if text_eq r.user_id user then rest else r ∷ rest

unfoldable pub replace_row : OrderRow → List OrderRow → List OrderRow
replace_row row [] = []
replace_row row (r ∷ rs) =
    let rest = replace_row row rs in if text_eq r.user_id row.user_id then row ∷ rest else r ∷ rest

-- The row is the marker of this reservation.
abbrev pub is_marker : Text → Option OrderRow → Bool
is_marker id none = false
is_marker id (some r) = text_eq r.id (uuid_text id) && marked r.status
  where
    marked : DurableOrderStatus → Bool
    marked persisted = false
    marked compensated = true

-- `UPDATE orders SET … WHERE user_id=$5 AND id=$6 AND status='compensated'`
unfoldable pub update_marker : Text → OrderRow → Tables → Outcome (ℕ × Tables)
update_marker current row t =
    if not (is_marker current (find_user row.user_id t.orders))
    then ok (0, t)
    else if has_id (uuid_text row.id) (others row.user_id t.orders)
    then throw plain_error
    else if not (row_checks row && has_sale row.sale_id t)
    then throw plain_error
    else ok (1, record t { orders = replace_row (stored row) t.orders })

-- `INSERT INTO sales … ON CONFLICT (id) DO NOTHING`, under the two checks of that table.
unfoldable pub insert_sale : SaleRow → Tables → Outcome Tables
insert_sale row t =
    if ltb_ℤ row.total_stock (pos 0) || leb_ℤ row.ends_ms row.starts_ms
    then throw plain_error
    else if is_some (find_sale row.id t.sales)
    then ok t
    else ok (record t { sales = row ∷ t.sales })
