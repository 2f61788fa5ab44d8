-- ===== src/Worker/Postgres/Laws.antt =====
-- What the statements do to the row of each user.
use bookipi_technical_test.Prelude.{
  Option, ◌≡◌, true, none, some, List, [], ◌∷◌, arith, false, ◌⊎◌, plain_error, Outcome, throw, ℕ,
  Bool, if◌then◌else◌, ok,
}
use bookipi_technical_test.Text.{Text, text_eq, text_eq_iff}
use bookipi_technical_test.Worker.Postgres.{
  Tables, OrderRow, find_user, insert_order, persisted, update_marker, replace_row, stored,
  row_checks, is_marker,
}

-- An insertion that counts a row was of a user without one, and puts the row on file.
pub insert_order_counted :
    (or_nothing : _) (row : OrderRow) (t t' : Tables)
    → insert_order or_nothing row t ≡ ok (1, t')
    → (find_user row.user_id t.orders ≡ none)
      × (t' ≡ (record t { orders = stored row ∷ t.orders }))
      × (row_checks row ≡ true)
unfolding insert_order
insert_order_counted or_nothing row t t' h = ground arith

pub find_user-replace_row :
    (u : Text) (row : OrderRow) (rs : List OrderRow)
    → find_user u (replace_row row rs) ≡ (
        if text_eq row.user_id u
        then elim (find_user u rs) [ none ↦ none | some _ ↦ some row ]
        else find_user u rs)
unfolding find_user replace_row
find_user-replace_row u row [] = ground arith
find_user-replace_row u row (r ∷ rs) = ground (
  arith,
  text_eq_iff row.user_id u,
  text_eq_iff r.user_id u,
  text_eq_iff r.user_id row.user_id,
  find_user-replace_row u row rs,
)

-- An update that counts a row replaced the marker of the row's user.
pub update_marker_counted :
    (current : Text) (row : OrderRow) (t t' : Tables)
    → update_marker current row t ≡ ok (1, t')
    → (is_marker current (find_user row.user_id t.orders) ≡ true)
      × (t' ≡ (record t { orders = replace_row (stored row) t.orders }))
      × (row_checks row ≡ true)
unfolding update_marker
update_marker_counted current row t t' h = ground arith

-- The count of rows and the tables after a statement.
abbrev pub row_count : Outcome (ℕ × Tables) → ℕ
row_count (ok (n, t)) = n
row_count (throw e) = 0

abbrev pub tables_after : Tables → Outcome (ℕ × Tables) → Tables
tables_after t (ok (n, t')) = t'
tables_after t (throw e) = t

-- The row of each user once a statement has counted one.
pub find_user-insert_order :
    (or_nothing : Bool) (row : OrderRow) (t : Tables) (u : Text)
    → row_count (insert_order or_nothing row t) ≡ 1
    → find_user u (tables_after t (insert_order or_nothing row t)).orders
      ≡ (if text_eq row.user_id u then some (stored row) else find_user u t.orders)
unfolding find_user insert_order
find_user-insert_order or_nothing row t u h = ground arith

pub find_user-update_marker :
    (current : Text) (row : OrderRow) (t : Tables) (u : Text)
    → row_count (update_marker current row t) ≡ 1
    → find_user u (tables_after t (update_marker current row t)).orders
      ≡ (if text_eq row.user_id u then some (stored row) else find_user u t.orders)
unfolding update_marker
find_user-update_marker current row t u h =
    ground (arith, find_user-replace_row u (stored row) t.orders, text_eq_iff row.user_id u)

-- A plain insertion counts one row, or throws.
pub insert_order_plain :
    (row : OrderRow) (t : Tables)
    → (row_count (insert_order false row t) ≡ 1) ⊎ (insert_order false row t ≡ throw plain_error)
unfolding insert_order
insert_order_plain row t = ground arith

-- A statement leaves the row of a persisted order alone.
pub insert_order_keeps :
    (or_nothing : Bool) (row : OrderRow) (t : Tables) (u : Text) (r : OrderRow)
    → find_user u t.orders ≡ some r
    → find_user u (tables_after t (insert_order or_nothing row t)).orders ≡ some r
unfolding find_user insert_order
insert_order_keeps or_nothing row t u r h = ground (arith, text_eq_iff row.user_id u)

pub update_marker_keeps :
    (current : Text) (row : OrderRow) (t : Tables) (u : Text) (r : OrderRow)
    → find_user u t.orders ≡ some r
    → r.status ≡ persisted
    → find_user u (tables_after t (update_marker current row t)).orders ≡ some r
unfolding update_marker
update_marker_keeps current row t u r h final =
    ground (arith, find_user-replace_row u (stored row) t.orders, text_eq_iff row.user_id u)

-- The marker of one user gives way to a row of his; the rows of the others stay.
pub update_marker_other :
    (current : Text) (row : OrderRow) (t : Tables) (u : Text) (o : Option OrderRow)
    → find_user u t.orders ≡ o
    → text_eq row.user_id u ≡ false
    → find_user u (tables_after t (update_marker current row t)).orders ≡ o
unfolding update_marker
update_marker_other current row t u o h other =
    ground (arith, h, other, find_user-replace_row u (stored row) t.orders)
