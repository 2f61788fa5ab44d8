-- ===== src/Redis/Store/Scan/Missed.antt =====
-- An iteration of Redis that has not named an element which it should name.
use bookipi_technical_test.Prelude.{ℕ, suc, ◌≡◌, Bool, true, false, List, [], ◌∷◌, arith}
use bookipi_technical_test.Text.{Text, text_eq}
use bookipi_technical_test.Redis.Db.{SaleDb}
use bookipi_technical_test.Redis.Members.{is_listed}
use bookipi_technical_test.Redis.Store.Scan.{Scan, first_cursor, is_iteration, is_scanned, all_hold}

module _ (users : List Text → List Text) (holds : Text → SaleDb → Bool) where
  -- An iteration from here on that has not named the user.
  abbrev pub Missed : Text → Scan → ℕ → ℕ → Text → Type 0
  Missed u scan count k cursor =
      (dbs : List SaleDb) × (is_iteration scan count k cursor dbs ≡ true)
      × (all_hold (holds u) dbs ≡ true)
      × (is_scanned users u scan count k cursor dbs ≡ false)

  -- A last page, and a page before others, that do not name him.
  pub Missed-last :
      (u : Text) (scan : Scan) (count k : ℕ) (cursor : Text) (db : SaleDb)
      → holds u db ≡ true
      → is_listed u (users (scan k cursor count db).1) ≡ false
      → text_eq (scan k cursor count db).0 first_cursor ≡ true
      → Missed u scan count k cursor
  Missed-last u scan count k cursor db held free ends =
      (db ∷ [], ends, ground (arith, held), ground (arith, free))

  pub Missed-before :
      (u : Text) (scan : Scan) (count k : ℕ) (cursor : Text) (db : SaleDb)
      → holds u db ≡ true
      → is_listed u (users (scan k cursor count db).1) ≡ false
      → text_eq (scan k cursor count db).0 first_cursor ≡ false
      → Missed u scan count (suc k) (scan k cursor count db).0
      → Missed u scan count k cursor
  Missed-before u scan count k cursor db held free more ([], ends, _, _) =
      absurd (ground (arith, ends))
  Missed-before u scan count k cursor db held free more (next ∷ dbs, ends, all, missed) = (
    db ∷ next ∷ dbs,
    ground (arith, more, ends),
    ground (arith, held, all),
    ground (arith, free, missed),
  )
