-- ===== src/Redis/Store/Admin.antt =====
-- The store's methods beside the scripts: the cold rebuild of the ledger, the pages of a scan, the
-- metrics and the reset.
use bookipi_technical_test.Prelude.{
  ℕ, zero, suc, ◌≤◌, ◌≡◌, refl, Bool, false, ◌||◌, Option, none, List, [], ◌∷◌, ◌++◌, arith, length,
  take, drop, take-append-drop, length-drop, ℤ, pos, ◌+ℤ◌, Outcome, ok, throw, plain_error, ◌>>=◌,
  ap, sym, ◌∙◌,
}
use bookipi_technical_test.Text.{Text, text_eq}
use bookipi_technical_test.Shared.Keys.{assert_sale_id}
use bookipi_technical_test.Shared.Results.{AttemptOutcome, metric_field}
use bookipi_technical_test.Redis.Hash.{Hash, hget, hset, hexists, hexists-hset}
use bookipi_technical_test.Redis.Members.{sadd, sismember, sismember-sadd}
use bookipi_technical_test.Redis.Db.{SaleDb, get_or}
use bookipi_technical_test.Redis.Scripts.Purchase.{ledger_value}
use bookipi_technical_test.Redis.Store.Entry.{ReservationEntry, parse_reservation_entry}
use bookipi_technical_test.Redis.Store.Methods.{Method}

-- `ReservationRestoreInput`, with `Date.now()` as the method reads it for this entry.
pub record RestoreRow : Type 0 where
  pub user_id : Text
  pub reservation_id : Text
  pub reserved_at_ms : Option ℕ
  pub now_ms : ℕ

-- The two commands of the pipeline for one entry.
unfoldable pub restore_row : RestoreRow → SaleDb → SaleDb
restore_row e db = record db {
  buyers = sadd e.user_id db.buyers;
  reservations =
      hset e.user_id (ledger_value e.reservation_id (get_or e.reserved_at_ms e.now_ms))
        db.reservations;
}

unfoldable pub restore_rows : List RestoreRow → SaleDb → SaleDb
restore_rows [] db = db
restore_rows (e ∷ es) db = restore_rows es (restore_row e db)

-- How a pipeline ends: every command has run; the connection did not take it, which gives `null`; or a
-- command of it failed, and this is what the others left.
pub data PipelineEnd : Type 0 where
  executed aborted : PipelineEnd
  command_failed : SaleDb → PipelineEnd

-- The chunks in turn, with a round of fuel for each entry. `ends k` is how the k-th pipeline ends.
restore_chunks : ℕ → (ℕ → PipelineEnd) → ℕ → List RestoreRow → Method (Unit {0})
unfolding restore_rows
restore_chunks zero ends k es db = (ok tt, db)
restore_chunks (suc f) ends k [] db = (ok tt, db)
restore_chunks (suc f) ends k (e ∷ es) db = elim (ends k) [
  | executed ↦
      restore_chunks f ends (suc k) (drop 500 (e ∷ es)) (restore_rows (take 500 (e ∷ es)) db)
  | aborted ↦ (throw plain_error, db)
  | command_failed left ↦ (throw plain_error, left)
]

unfoldable pub restore_reservations : Text → (ℕ → PipelineEnd) → List RestoreRow → Method (Unit {0})
unfolding restore_chunks
restore_reservations sale ends es db = elim (assert_sale_id sale) [
  | throw e ↦ (throw e, db)
  | ok _ ↦ restore_chunks (length es) ends 0 es db
]

-- The page of HSCAN as the flat list of fields and values.
unfoldable pub entries_of_flat : List Text → Outcome (List ReservationEntry)
entries_of_flat [] = ok []
entries_of_flat (user ∷ []) = throw plain_error
entries_of_flat (user ∷ value ∷ flat) = do
  e ← parse_reservation_entry user value
  es ← entries_of_flat flat
  ok (e ∷ es)

-- HINCRBY
unfoldable pub hincrby : Text → Hash ℤ → Hash ℤ
hincrby field m = hset field (get_or (hget field m) (pos 0) +ℤ pos 1) m

-- `bumpMetric`: whatever it throws is swallowed.
unfoldable pub bump_metric : Text → AttemptOutcome → SaleDb → SaleDb
unfolding hincrby
bump_metric sale outcome db = elim (assert_sale_id sale) [
  | throw _ ↦ db
  | ok _ ↦ record db { metrics = hincrby (metric_field outcome) db.metrics }
]

unfoldable pub reset : Text → Method (Unit {0})
reset sale db = elim (assert_sale_id sale) [
  | throw e ↦ (throw e, db)
  | ok _ ↦
      (ok tt, record { config = none; stock = none; buyers = []; reservations = []; metrics = [] })
]

restore_rows-append :
    (xs ys : List RestoreRow) (db : SaleDb)
    → restore_rows (xs ++ ys) db ≡ restore_rows ys (restore_rows xs db)
unfolding restore_rows
restore_rows-append [] ys db = refl
restore_rows-append (x ∷ xs) ys db = restore_rows-append xs ys (restore_row x db)

restore_chunks_lem :
    (f : ℕ) (ends : ℕ → PipelineEnd) (k : ℕ) (es : List RestoreRow) (db : SaleDb)
    → ((i : ℕ) → ends i ≡ executed)
    → length es ≤ f
    → restore_chunks f ends k es db ≡ (ok tt, restore_rows es db)
unfolding restore_chunks
restore_chunks_lem zero ends k [] db up h = refl
restore_chunks_lem zero ends k (e ∷ es) db up h = absurd (omega arith)
restore_chunks_lem (suc f) ends k [] db up h = refl
restore_chunks_lem (suc f) ends k (e ∷ es) db up h =
    rw (up k, restore_chunks)
      (restore_chunks_lem f ends (suc k) (drop 499 es) (restore_rows (take 499 es) first) up
          (omega (arith, length-drop 499 es))
        ∙ ap (λ d. (ok tt, d)) whole_list)
  where
    first : SaleDb
    first = restore_row e db

    whole_list :
        restore_rows (drop 499 es) (restore_rows (take 499 es) first) ≡ restore_rows es first
    whole_list =
        sym (restore_rows-append (take 499 es) (drop 499 es) first)
        ∙ ap (λ l. restore_rows l first) (take-append-drop 499 es)

-- The keys that a rebuild touches: each user of the list ends up a buyer and a holder.
abbrev pub is_row_of : Text → List RestoreRow → Bool
is_row_of u [] = false
is_row_of u (e ∷ es) = text_eq e.user_id u || is_row_of u es

restore_rows_aligned :
    (es : List RestoreRow) (db : SaleDb) (u : Text)
    → (sismember u (restore_rows es db).buyers ≡ (is_row_of u es || sismember u db.buyers))
      × (hexists u (restore_rows es db).reservations
          ≡ (is_row_of u es || hexists u db.reservations))
unfolding restore_rows restore_row
restore_rows_aligned [] db u = (refl, refl)
restore_rows_aligned (e ∷ es) db u =
    let key = e.user_id in
    let value = ledger_value e.reservation_id (get_or e.reserved_at_ms e.now_ms) in
    ground (
      arith,
      restore_rows_aligned es (restore_row e db) u,
      sismember-sadd key u db.buyers,
      hexists-hset key u value db.reservations,
    )

-- The rebuild in pipelines of 500 is the rebuild entry by entry, for a list of any length, as long as
-- every pipeline is executed; and after it each user of the list is a buyer and a holder, and every other
-- user is what he was.
pub restore_reservations_lem :
    (sale : Text) (ends : ℕ → PipelineEnd) (es : List RestoreRow) (db : SaleDb)
    → assert_sale_id sale ≡ ok tt
    → ((i : ℕ) → ends i ≡ executed)
    → let after = restore_rows es db in
      (restore_reservations sale ends es db ≡ (ok tt, after))
      × ((u : Text)
          → (sismember u after.buyers ≡ (is_row_of u es || sismember u db.buyers))
            × (hexists u after.reservations ≡ (is_row_of u es || hexists u db.reservations)))
unfolding restore_reservations
restore_reservations_lem sale ends es db valid up = (
  rw (valid, restore_reservations) (restore_chunks_lem (length es) ends 0 es db up (omega arith)),
  λ u. restore_rows_aligned es db u,
)
