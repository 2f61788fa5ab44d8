-- ===== src/Redis/Store/Scan.antt =====
-- `scanReservations` and `scanBuyers` of the store. A call of HSCAN or SSCAN replies a cursor and a list of
-- texts; what Redis promises of a whole iteration is a hypothesis of the theorems that need it.
use bookipi_technical_test.Prelude.{
  ℕ, zero, suc, ◌≡◌, refl, Bool, true, false, not, ◌&&◌, ◌||◌, List, [], ◌∷◌, Outcome, ok, throw,
  ◌>>=◌, ◌>>◌, arith, if◌then◌else◌,
}
use bookipi_technical_test.Text.{Text, codes, text_eq}
use bookipi_technical_test.Shared.Keys.{assert_sale_id}
use bookipi_technical_test.Redis.Db.{SaleDb}
use bookipi_technical_test.Redis.Members.{is_listed}
use bookipi_technical_test.Redis.Store.Entry.{ReservationEntry, parse_reservation_entry}
use bookipi_technical_test.Redis.Store.Admin.{entries_of_flat}
pub mod Missed

-- The cursor and the texts of one reply.
abbrev pub ScanReply : Type 0
ScanReply = Text × List Text

abbrev pub first_cursor : Text
first_cursor = codes "0"

-- The reply to the k-th call of an iteration, by its cursor and its COUNT.
abbrev pub Scan : Type 0
Scan = ℕ → Text → ℕ → SaleDb → ScanReply

unfoldable pub scan_reservations :
    Text → (SaleDb → ScanReply) → SaleDb → Outcome (Text × List ReservationEntry)
scan_reservations sale hscan db = do
  assert_sale_id sale
  entries ← entries_of_flat (hscan db).1
  ok ((hscan db).0, entries)

unfoldable pub scan_buyers : Text → (SaleDb → ScanReply) → SaleDb → Outcome ScanReply
scan_buyers sale sscan db = do assert_sale_id sale; ok (sscan db)

-- The fields of a page of HSCAN.
abbrev pub fields_of : List Text → List Text
fields_of [] = []
fields_of (field ∷ []) = field ∷ []
fields_of (field ∷ value ∷ flat) = field ∷ fields_of flat

-- An iteration that calls on these databases in turn, from the cursor that a reply gives to the next
-- call, and that ends by its last call and not before.
abbrev pub is_iteration : Scan → ℕ → ℕ → Text → List SaleDb → Bool
is_iteration scan count k cursor [] = false
is_iteration scan count k cursor (db ∷ []) = text_eq (scan k cursor count db).0 first_cursor
is_iteration scan count k cursor (db ∷ next ∷ dbs) =
    not (text_eq (scan k cursor count db).0 first_cursor)
    && is_iteration scan count (suc k) (scan k cursor count db).0 (next ∷ dbs)

-- Whether a page of the iteration names the user.
abbrev pub is_scanned : (List Text → List Text) → Text → Scan → ℕ → ℕ → Text → List SaleDb → Bool
is_scanned users u scan count k cursor [] = false
is_scanned users u scan count k cursor (db ∷ dbs) =
    is_listed u (users (scan k cursor count db).1)
    || is_scanned users u scan count (suc k) (scan k cursor count db).0 dbs

abbrev pub all_hold : (SaleDb → Bool) → List SaleDb → Bool
all_hold holds [] = true
all_hold holds (db ∷ dbs) = holds db && all_hold holds dbs

-- What Redis documents of SSCAN and HSCAN: a full iteration returns each element that is in the
-- collection from its start to its end.
abbrev pub IsComplete : (List Text → List Text) → (Text → SaleDb → Bool) → Scan → Type 0
IsComplete users holds scan =
    (u : Text) (count : ℕ) (dbs : List SaleDb)
    → is_iteration scan count 0 first_cursor dbs ≡ true
    → all_hold (holds u) dbs ≡ true
    → is_scanned users u scan count 0 first_cursor dbs ≡ true

-- The entries of a page name its fields.
abbrev pub has_entry : Text → List ReservationEntry → Bool
has_entry u [] = false
has_entry u (e ∷ es) = text_eq e.user_id u || has_entry u es
