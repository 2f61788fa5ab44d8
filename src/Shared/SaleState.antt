-- ===== src/Shared/SaleState.antt =====
-- The sale's state as a function of the clock, the window and the stock
-- (packages/shared/src/sale-state.ts).
use bookipi_technical_test.Prelude.{
  Bool, true, false, ◌&&◌, not, Option, none, some, ℤ, pos, ltb_ℤ, leb_ℤ, ◌-ℤ◌, if◌then◌else◌,
  Outcome, ok, throw, range_error, guard, ◌>>=◌, ◌>>◌,
}
pub mod Laws

-- A JavaScript number where the code tests `Number.isFinite`: a whole number, or NaN or an infinity.
-- Clocks and windows are whole milliseconds.
pub data JsNumber : Type 0 where
  whole : ℤ → JsNumber
  not_finite : JsNumber

pub data SaleState : Type 0 where
  upcoming active sold_out ended : SaleState

pub record SaleStateInput : Type 0 where
  pub now_ms : JsNumber
  pub starts_at_ms : JsNumber
  pub ends_at_ms : JsNumber
  pub stock_remaining : ℤ

-- The three numbers, once they are known to be finite and to form a window.
pub record ValidWindow : Type 0 where
  pub now : ℤ
  pub starts : ℤ
  pub ends : ℤ

abbrev pub window_of : ℤ → ℤ → ℤ → Outcome ValidWindow
window_of n s e =
    if leb_ℤ e s then throw range_error else ok (record { now = n; starts = s; ends = e })

unfoldable pub assert_valid_window : JsNumber → JsNumber → JsNumber → Outcome ValidWindow
assert_valid_window (whole n) (whole s) (whole e) = window_of n s e
assert_valid_window _ _ _ = throw range_error

-- The precedence: upcoming, ended, sold out, active.
abbrev pub state_in : ValidWindow → ℤ → SaleState
state_in w stock =
    if ltb_ℤ w.now w.starts
    then upcoming
    else if leb_ℤ w.ends w.now
    then ended
    else if leb_ℤ (if ltb_ℤ stock (pos 0) then pos 0 else stock) (pos 0)
    then sold_out
    else active

unfoldable pub derive_sale_state : SaleStateInput → Outcome SaleState
unfolding assert_valid_window
derive_sale_state i = do
  w ← assert_valid_window i.now_ms i.starts_at_ms i.ends_at_ms
  ok (state_in w i.stock_remaining)

unfoldable pub is_within_sale_window : JsNumber → JsNumber → JsNumber → Outcome Bool
unfolding assert_valid_window
is_within_sale_window n s e = do
  w ← assert_valid_window n s e
  ok (leb_ℤ w.starts w.now && ltb_ℤ w.now w.ends)

-- The `switch` of `msUntilNextTransition`.
abbrev pub until_next : SaleState → ValidWindow → Option ℤ
until_next upcoming w = some (w.starts -ℤ w.now)
until_next active w = some (w.ends -ℤ w.now)
until_next sold_out w = some (w.ends -ℤ w.now)
until_next ended w = none

unfoldable pub ms_until_next_transition : SaleStateInput → Outcome (Option ℤ)
unfolding derive_sale_state assert_valid_window
ms_until_next_transition i = do
  s ← derive_sale_state i
  w ← assert_valid_window i.now_ms i.starts_at_ms i.ends_at_ms
  ok (until_next s w)
