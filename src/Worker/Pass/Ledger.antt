-- ===== src/Worker/Pass/Ledger.antt =====
-- The scan of the ledger in a pass: it reads only, and it names every holder.
use bookipi_technical_test.Prelude.{
  ℕ, zero, suc, ◌≡◌, ◌⊎◌, inl, inr, refl, Bool, true, false, ◌||◌, List, [], ◌∷◌, ◌++◌, Bool-cases,
  bind_ok, arith, ok, ◌>>=◌, if◌then◌else◌,
}
use bookipi_technical_test.Text.{Text, text_eq}
use bookipi_technical_test.Shared.Keys.{assert_sale_id}
use bookipi_technical_test.Redis.Hash.{hexists}
use bookipi_technical_test.Redis.Db.{SaleDb}
use bookipi_technical_test.Redis.Members.{is_listed}
use bookipi_technical_test.Redis.Store.Admin.{entries_of_flat}
use bookipi_technical_test.Redis.Store.Entry.{ReservationEntry, parse_reservation_entry}
use bookipi_technical_test.Redis.Store.Scan.{
  Scan, first_cursor, scan_reservations, has_entry, fields_of, IsComplete,
}
use bookipi_technical_test.Redis.Store.Scan.Missed.{Missed, Missed-last, Missed-before}
use bookipi_technical_test.Worker.Step.{continue_ok, pure}
use bookipi_technical_test.Worker.Env.{WorkerEnv}
use bookipi_technical_test.Worker.World.{World}
use bookipi_technical_test.Worker.Scans.{ledger_pages, scan_ledger}

abbrev pub holds : Text → SaleDb → Bool
holds u db = hexists u db.reservations

has_entry-append :
    (u : Text) (xs ys : List ReservationEntry)
    → has_entry u (xs ++ ys) ≡ (has_entry u xs || has_entry u ys)
has_entry-append u [] ys = refl
has_entry-append u (x ∷ xs) ys = ground (arith, has_entry-append u xs ys)

parsed_user :
    (user value : Text) (e : ReservationEntry)
    → parse_reservation_entry user value ≡ ok e
    → e.user_id ≡ user
unfolding parse_reservation_entry
parsed_user user value e h = ground (arith, h)

-- The entries of a page are those of its fields.
has_entry-entries :
    (u : Text) (flat : List Text) (entries : List ReservationEntry)
    → entries_of_flat flat ≡ ok entries
    → has_entry u entries ≡ is_listed u (fields_of flat)
unfolding entries_of_flat
has_entry-entries u [] entries h = ground (arith, h)
has_entry-entries u (user ∷ []) entries h = absurd (ground (arith, h))
has_entry-entries u (user ∷ value ∷ flat) entries h =
    bind_ok {m = parse_reservation_entry user value}
      {f = λ e. entries_of_flat flat >>= λ es. ok (e ∷ es)} h
      (λ e parsed h1. bind_ok {m = entries_of_flat flat} {f = λ es. ok (e ∷ es)} h1 (λ es rest last.
        ground (arith, last, parsed_user user value e parsed, has_entry-entries u flat es rest)))

-- A page of the store's method is the reply, and names its fields.
scanned_page :
    (sale u : Text) (hscan : SaleDb → Text × List Text) (db : SaleDb)
    (page : Text × List ReservationEntry)
    → scan_reservations sale hscan db ≡ ok page
    → (page.0 ≡ (hscan db).0) × (has_entry u page.1 ≡ is_listed u (fields_of (hscan db).1))
unfolding scan_reservations
scanned_page sale u hscan db page h =
    bind_ok {m = assert_sale_id sale}
      {f = λ _. entries_of_flat (hscan db).1 >>= λ entries. ok ((hscan db).0, entries)} h
      (λ _ _ h1.
        bind_ok {m = entries_of_flat (hscan db).1} {f = λ entries. ok ((hscan db).0, entries)} h1
          (λ entries read last.
            ground (arith, last, has_entry-entries u (hscan db).1 entries read)))

module _ (hscan : Scan) (env : WorkerEnv) where
  abbrev Result : Text → ℕ → Text → List ReservationEntry → List ReservationEntry → Type 0
  Result u k cursor result entries =
      (has_entry u entries ≡ true)
      ⊎ ((has_entry u result ≡ false)
          × Missed fields_of holds u hscan env.worker_reconcile_scan_count k cursor)

  -- The page of one call, whose entries come behind those read before.
  module _ (u : Text) (k : ℕ) (cursor : Text) (result : List ReservationEntry)
      (page : Text × List ReservationEntry) (db : SaleDb) (held : holds u db ≡ true)
      (read : scan_reservations env.sale_id (hscan k cursor env.worker_reconcile_scan_count) db
        ≡ ok page) where
    at_end : text_eq page.0 first_cursor ≡ true → Result u k cursor result (result ++ page.1)
    at_end ends =
        let same =
          scanned_page env.sale_id u (hscan k cursor env.worker_reconcile_scan_count) db page
            read in
        elim (Bool-cases (has_entry u (result ++ page.1))) [
          | inl found ↦ inl found
          | inr free ↦ inr (
            ground (arith, free, has_entry-append u result page.1),
            Missed-last fields_of holds u hscan env.worker_reconcile_scan_count k cursor db held
                (ground (arith, free, same, has_entry-append u result page.1)) (rw (← same.0) ends),
          )
        ]

    before_end :
        (entries : List ReservationEntry)
        → text_eq page.0 first_cursor ≡ false
        → Result u (suc k) page.0 (result ++ page.1) entries
        → Result u k cursor result entries
    before_end entries more (inl found) = inl found
    before_end entries more (inr (free, missed)) =
        let same =
          scanned_page env.sale_id u (hscan k cursor env.worker_reconcile_scan_count) db page
            read in
        inr (
          ground (arith, free, has_entry-append u result page.1),
          Missed-before fields_of holds u hscan env.worker_reconcile_scan_count k cursor db held
              (ground (arith, free, same, has_entry-append u result page.1)) (rw (← same.0) more)
              (rw same.0 at missed),
        )

  -- What a round that ends well has done.
  Ended :
      {Q : Type 0}
      → ℕ
      → ℕ
      → List ReservationEntry
      → List ReservationEntry
      → World Q
      → World Q
      → Text × List ReservationEntry
      → Type 0
  Ended fuel k result entries w w' page =
      ((text_eq page.0 first_cursor ≡ true) × (result ++ page.1 ≡ entries) × (w' ≡ w))
      ⊎ ((text_eq page.0 first_cursor ≡ false)
          × (ledger_pages hscan env fuel (suc k) page.0 (result ++ page.1) w ≡ (ok entries, w')))

  ended :
      {Q : Type 0} (fuel k : ℕ) (result entries : List ReservationEntry) (w w' : World Q)
      (page : Text × List ReservationEntry) (b : Bool)
      → text_eq page.0 first_cursor ≡ b
      → (if b
            then pure (result ++ page.1)
            else ledger_pages hscan env fuel (suc k) page.0 (result ++ page.1))
          w
        ≡ (ok entries, w')
      → Ended fuel k result entries w w' page
  unfolding Ended
  ended fuel k result entries w w' page true e h = inl (e, ground (arith, h), ground (arith, h))
  ended fuel k result entries w w' page false e h = inr (e, h)

  ledger_round :
      {Q : Type 0} (fuel k : ℕ) (cursor : Text) (result entries : List ReservationEntry)
      (w w' : World Q)
      → ledger_pages hscan env (suc fuel) k cursor result w ≡ (ok entries, w')
      → (page : Text × List ReservationEntry) × (scan_reservations env.sale_id
            (hscan k cursor env.worker_reconcile_scan_count)
            w.stores.db
          ≡ ok page)
        × Ended fuel k result entries w w' page
  unfolding ledger_pages
  ledger_round fuel k cursor result entries w w' h = continue_ok h (λ _ w1 c1 h1.
      continue_ok h1 (λ page w2 read h2. continue_ok h2 (λ _ w3 c3 h3.
        let same : w3 ≡ w = ground (arith, c1, read, c3) in
        (
          page,
          ground (arith, c1, read),
          ended fuel k result entries w w' page (text_eq page.0 first_cursor) refl (rw same at h3),
        ))))

  -- The scan has named a holder or missed him.
  ledger_pages_lem :
      (u : Text) (fuel k : ℕ) (cursor : Text) (result entries : List ReservationEntry) {Q : Type 0}
      (w w' : World Q)
      → holds u w.stores.db ≡ true
      → ledger_pages hscan env fuel k cursor result w ≡ (ok entries, w')
      → Result u k cursor result entries
  unfolding Ended
  ledger_pages_lem u zero k cursor result entries w w' held h =
      absurd (unfold ledger_pages in ground (arith, h))
  ledger_pages_lem u (suc fuel) k cursor result entries w w' held h =
      let (page, read, next) = ledger_round fuel k cursor result entries w w' h in
      elim next [
        | inl (ends, all, same) ↦
            rw all at (at_end u k cursor result page w.stores.db held read ends)
        | inr (more, left) ↦
            before_end u k cursor result page w.stores.db held read entries more
              (ledger_pages_lem u fuel (suc k) page.0 (result ++ page.1) entries w w' held left)
      ]

  reads_only :
      (fuel k : ℕ) (cursor : Text) (result entries : List ReservationEntry) {Q : Type 0}
      (w w' : World Q)
      → ledger_pages hscan env fuel k cursor result w ≡ (ok entries, w')
      → w' ≡ w
  unfolding Ended
  reads_only zero k cursor result entries w w' h = absurd (unfold ledger_pages in ground (arith, h))
  reads_only (suc fuel) k cursor result entries w w' h =
      let (page, read, next) = ledger_round fuel k cursor result entries w w' h in
      elim next [
        | inl (ends, all, same) ↦ same
        | inr (more, left) ↦ reads_only fuel (suc k) page.0 (result ++ page.1) entries w w' left
      ]

  -- With Redis keeping its promise, the scan has named every holder.
  pub scan_ledger_lem :
      (fuel : ℕ) (entries : List ReservationEntry) {Q : Type 0} (w w' : World Q) (u : Text)
      → IsComplete fields_of holds hscan
      → holds u w.stores.db ≡ true
      → scan_ledger hscan env fuel w ≡ (ok entries, w')
      → has_entry u entries ≡ true
  unfolding scan_ledger
  scan_ledger_lem fuel entries w w' u complete held h =
      elim (ledger_pages_lem u fuel 0 first_cursor [] entries w w' held h) [
        | inl found ↦ found
        | inr (_, (dbs, ends, all, missed)) ↦
            ground (arith, complete u env.worker_reconcile_scan_count dbs ends all, missed)
      ]

  -- It reads only.
  pub scan_ledger_same :
      (fuel : ℕ) (entries : List ReservationEntry) {Q : Type 0} (w w' : World Q)
      → scan_ledger hscan env fuel w ≡ (ok entries, w')
      → w' ≡ w
  unfolding scan_ledger
  scan_ledger_same fuel entries w w' h = reads_only fuel 0 first_cursor [] entries w w' h
