-- ===== src/Worker/Pass/Alignment.antt =====
-- Behind the repairs of a pass every user is a buyer exactly if he holds a reservation.
use bookipi_technical_test.Prelude.{
  ℕ, ◌≡◌, refl, true, false, ◌||◌, Option, List, [], ◌∷◌, Bool-cases, inl, inr, arith, ok,
}
use bookipi_technical_test.Text.{Text, text_eq, text_eq→eq, text_eq_refl}
use bookipi_technical_test.Redis.Hash.{hget, hset, hexists, hexists-hset}
use bookipi_technical_test.Redis.Members.{sismember-sadd, sismember-srem}
use bookipi_technical_test.Redis.Scripts.Membership.{reconcile_membership}
use bookipi_technical_test.Redis.Store.Entry.{ReservationEntry}
use bookipi_technical_test.Redis.Store.Methods.{reconcile_buyer_membership}
use bookipi_technical_test.Redis.Store.Scan.{IsComplete, first_cursor, has_entry, fields_of}
use bookipi_technical_test.Worker.Step.{continue, continue_ok}
use bookipi_technical_test.Worker.Env.{WorkerEnv}
use bookipi_technical_test.Worker.Orders.{DurableOrder}
use bookipi_technical_test.Worker.Queue.{QueueApi}
use bookipi_technical_test.Worker.World.{World}
use bookipi_technical_test.Worker.Keeps.{kept}
use bookipi_technical_test.Worker.Recovery.Laws.{IsAligned, Aligned, IsAligned-IsKept}
use bookipi_technical_test.Worker.Scans.{ScannedJob}
use bookipi_technical_test.Worker.Pass.{
  PassReads, ledger_map, align, cover_ledger, cover_reservation, buyer_pages, repair,
}
use bookipi_technical_test.Worker.Pass.Keeps.{
  Keeps-align, Keeps-cover_reservation, Keeps-cover_ledger, Keeps-buyer_pages,
}
use bookipi_technical_test.Worker.Pass.Ledger.{holds, scan_ledger_lem, scan_ledger_same}
use bookipi_technical_test.Worker.Pass.Buyers.{Open, Open-IsKept}
use bookipi_technical_test.Worker.Pass.Iteration.{
  Bought, Bought-IsKept, buys, names, buyers_aligned,
}

-- The map of the entries has the users that the entries have.
hexists-ledger_map :
    (u : Text) (entries : List ReservationEntry) (m : List (Text × ReservationEntry))
    → hexists u (ledger_map entries m) ≡ (has_entry u entries || hexists u m)
unfolding ledger_map
hexists-ledger_map u [] m = refl
hexists-ledger_map u (e ∷ entries) m =
    ground (arith, hexists-ledger_map u entries (hset e.user_id e m), hexists-hset e.user_id u e m)

noted-ledger_map :
    (u : Text) (entries : List ReservationEntry)
    → hexists u (ledger_map entries []) ≡ has_entry u entries
unfolding hexists hget
noted-ledger_map u entries = ground (arith, hexists-ledger_map u entries [])

module _ {Q : Type 0} (api : QueueApi Q) (env : WorkerEnv) where
  aligned_by :
      (user : Text) (w w' : World Q)
      → align api env user w ≡ (ok tt, w')
      → IsAligned user w'.stores.db
  unfolding reconcile_buyer_membership reconcile_membership continue
  aligned_by user w w' h = ground (
    arith,
    h,
    sismember-sadd user user w.stores.db.buyers,
    sismember-srem user user w.stores.db.buyers,
    text_eq_refl user,
  )

  -- One entry of the ledger, and the entries behind it.
  covered_entry :
      (entry : ReservationEntry) (entries : List ReservationEntry) (w w' : World Q)
      → cover_ledger api env (entry ∷ entries) w ≡ (ok tt, w')
      → (row : Option DurableOrder) × (w1 : World Q) × (w2 : World Q) × (cover_reservation api env
            entry row w
          ≡ (ok tt, w1))
        × (align api env entry.user_id w1 ≡ (ok tt, w2))
        × (cover_ledger api env entries w2 ≡ (ok tt, w'))
  unfolding cover_ledger
  covered_entry entry entries w w' h = continue_ok h (λ _ w1 start h1.
      continue_ok h1 (λ row w2 of_map h2. continue_ok h2 (λ _ w3 covered h3.
        continue_ok h3 (λ _ w4 done rest.
          let same : w2 ≡ w = ground (arith, start, of_map) in
          (row, w3, w4, rw same at covered, done, rest)))))

  -- A listed user is aligned behind the ledger.
  cover_ledger-listed :
      (u : Text) (entries : List ReservationEntry) (w w' : World Q)
      → cover_ledger api env entries w ≡ (ok tt, w')
      → has_entry u entries ≡ true
      → IsAligned u w'.stores.db
  cover_ledger-listed u [] w w' h listed = absurd (ground (arith, listed))
  cover_ledger-listed u (entry ∷ entries) w w' h listed =
      let (row, w1, w2, covered, done, rest) = covered_entry entry entries w w' h in
      elim (Bool-cases (text_eq entry.user_id u)) [
        | inl same ↦
            let here : IsAligned u w2.stores.db =
              ground
                (arith, text_eq→eq entry.user_id u same, aligned_by entry.user_id w1 w2 done) in
            kept (Aligned u) rest
              (Keeps-cover_ledger (Aligned u) (IsAligned-IsKept u) api env entries w2 here)
        | inr other ↦ cover_ledger-listed u entries w2 w' rest (ground (arith, listed, other))
      ]

  -- Another user is open as before.
  cover_ledger-Open :
      (u : Text) (entries : List ReservationEntry) (w w' : World Q)
      → Open u w.stores.db w.ledger_by_user
      → cover_ledger api env entries w ≡ (ok tt, w')
      → has_entry u entries ≡ false
      → Open u w'.stores.db w'.ledger_by_user
  cover_ledger-Open u [] w w' o h free = unfold cover_ledger in ground (arith, o, h)
  cover_ledger-Open u (entry ∷ entries) w w' o h free =
      let (row, w1, w2, covered, done, rest) = covered_entry entry entries w w' h in
      let closed = Open-IsKept u entry.user_id (ground (arith, free)) in
      cover_ledger-Open u entries w2 w'
        (kept (Open u) done (
          Keeps-align (Open u) entry.user_id closed api env w1 (
            kept (Open u) covered
              (Keeps-cover_reservation (Open u) entry.user_id closed api env entry row w o))))
        rest (ground (arith, free))

  -- From the scan of the ledger on.
  from_ledger :
      (reads : PassReads) (fuel : ℕ) (u : Text) (entries : List ReservationEntry)
      (w w1 w' : World Q)
      → IsComplete names buys reads.sscan
      → (holds u w.stores.db ≡ true → has_entry u entries ≡ true)
      → cover_ledger api env entries (record w { ledger_by_user = ledger_map entries [] })
        ≡ (ok tt, w1)
      → buyer_pages api env reads.sscan fuel 0 first_cursor w1 ≡ (ok tt, w')
      → IsAligned u w'.stores.db
  from_ledger reads fuel u entries w w1 w' complete named covered looked =
      let noted : World Q = record w { ledger_by_user = ledger_map entries [] } in
      elim (Bool-cases (has_entry u entries)) [
        | inl listed ↦ kept (Aligned u) looked (
            Keeps-buyer_pages (Aligned u) (IsAligned-IsKept u) api env reads.sscan fuel 0
              first_cursor w1 (cover_ledger-listed u entries noted w1 covered listed))
        | inr free ↦
            buyers_aligned api env reads.sscan u fuel w1 w' complete
              (cover_ledger-Open u entries noted w1
                (ground (arith, free, noted-ledger_map u entries)) covered free)
              (kept (Bought u) covered (
                Keeps-cover_ledger (Bought u) (Bought-IsKept u) api env entries noted
                  (ground (arith, free, named))))
              looked
      ]

  -- Behind the repairs of a pass, whatever drifted before, each user is a buyer exactly if he holds a
  -- reservation.
  pub repair-IsAligned :
      (reads : PassReads) (fuel : ℕ) (orders : List DurableOrder) (jobs : List ScannedJob)
      (w w' : World Q)
      → IsComplete fields_of holds reads.hscan
      → IsComplete names buys reads.sscan
      → repair api env reads fuel orders jobs w ≡ (ok tt, w')
      → (u : Text) → IsAligned u w'.stores.db
  unfolding repair
  repair-IsAligned reads fuel orders jobs w w' holders buyers h u = continue_ok h (λ _ w1 _ h1.
      continue_ok h1 (λ _ w2 _ h2. continue_ok h2 (λ _ w3 _ h3.
        continue_ok h3 (λ entries w4 scanned h4. continue_ok h4 (λ _ w5 noted h5.
          continue_ok h5 (λ _ w6 covered looked.
            let same = scan_ledger_same reads.hscan env fuel entries w3 w4 scanned in
            let here : w5 ≡ record w4 { ledger_by_user = ledger_map entries [] } =
              ground (arith, noted) in
            from_ledger reads fuel u entries w4 w6 w' buyers
              (λ held.
                scan_ledger_lem reads.hscan env fuel entries w3 w4 u holders (rw same at held)
                  scanned)
              (rw here at covered) looked))))))
