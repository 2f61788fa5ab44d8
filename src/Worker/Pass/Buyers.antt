-- ===== src/Worker/Pass/Buyers.antt =====
-- The look at the buyers in a pass: it leaves every buyer that it is given with a reservation, or no
-- buyer any more.
use bookipi_technical_test.Prelude.{
  ◌≡◌, inl, inr, refl, Bool, true, false, not, ◌||◌, none, List, [], ◌∷◌, Bool-cases, arith, ok,
}
use bookipi_technical_test.Text.{Text, text_eq, text_eq→eq}
use bookipi_technical_test.Redis.Hash.{Hash, hexists, hexists-hset}
use bookipi_technical_test.Redis.Members.{is_listed}
use bookipi_technical_test.Redis.Db.{SaleDb}
use bookipi_technical_test.Redis.Store.Entry.{ReservationEntry}
use bookipi_technical_test.Worker.Step.{continue_ok}
use bookipi_technical_test.Worker.Env.{WorkerEnv}
use bookipi_technical_test.Worker.Queue.{QueueApi}
use bookipi_technical_test.Worker.World.{World}
use bookipi_technical_test.Worker.Keeps.{kept}
use bookipi_technical_test.Worker.Recovery.Keeps.{IsKept}
use bookipi_technical_test.Worker.Recovery.Laws.{
  IsAligned, is_aligned, Aligned, IsAligned-IsKept, resolved, adjudicated,
}
use bookipi_technical_test.Worker.Pass.{check_buyers, check_unless, is_buyer_only}
use bookipi_technical_test.Worker.Pass.Keeps.{Keeps-check_unless, Keeps-check_buyers}

-- The pass has not noted a reservation of the user, or he is aligned.
abbrev pub is_open : Text → SaleDb → Hash ReservationEntry → Bool
is_open u db ledger = not (hexists u ledger) || is_aligned u db

abbrev pub Open : Text → SaleDb → Hash ReservationEntry → Type 0
Open u db ledger = is_open u db ledger ≡ true

-- A look at another user leaves that as it is.
pub Open-IsKept : (u user : Text) → text_eq user u ≡ false → IsKept (Open u) user
Open-IsKept u user other = record {
  membership = λ sale v db ledger h.
      ground (arith, h, (IsAligned-IsKept u user).membership sale v db ledger);
  restore = λ sale input db ledger h.
      ground (arith, h, (IsAligned-IsKept u user).restore sale input db ledger);
  note = λ e db ledger h. ground (arith, h, other, hexists-hset user u e ledger);
}

module _ {Q : Type 0} (api : QueueApi Q) (env : WorkerEnv) where
  -- A buyer that is looked at is aligned, if he was not noted before that.
  looked_at :
      (user : Text) (known : Bool) (w w' : World Q)
      → (known ≡ true → IsAligned user w.stores.db)
      → check_unless api env user known w ≡ (ok tt, w')
      → IsAligned user w'.stores.db
  looked_at user true w w' noted h = ground (arith, h, noted refl)
  looked_at user false w w' noted h = continue_ok h (λ i w1 read rest.
      let same : w1 ≡ w = ground (arith, read) in
      elim (Bool-cases (is_buyer_only api env i.outcome)) [
        | inl alone ↦ adjudicated user api env w1 w' (rw alone at rest)
        | inr other ↦ continue_ok (rw other at rest) (λ row w2 of_map last.
            resolved user api env i row none w2 w' (ground (arith, read, of_map)) last)
      ])

  -- One user of a page, and the users behind him.
  module _ (u user : Text) (users : List Text) (w w' : World Q)
      (open_now : Open u w.stores.db w.ledger_by_user)
      (h : check_buyers api env (user ∷ users) w ≡ (ok tt, w')) where
    checked_user :
        (w1 : World Q) × (check_unless api env user (hexists user w.ledger_by_user) w ≡ (ok tt, w1))
        × (check_buyers api env users w1 ≡ (ok tt, w'))
    unfolding check_buyers
    checked_user = continue_ok h (λ _ w1 start h1. continue_ok h1 (λ known w2 is h2.
        continue_ok h2 (λ _ w3 look rest.
          let same : w2 ≡ w = ground (arith, start, is) in
          let noted : known ≡ hexists user w.ledger_by_user = ground (arith, start, is) in
          (w3, rw (same, noted) at look, rest))))

    aligned_here : text_eq user u ≡ true → IsAligned u w'.stores.db
    aligned_here same =
        let (w1, look, rest) = checked_user in
        let here : user ≡ u = text_eq→eq user u same in
        let aligned : IsAligned u w1.stores.db = ground (
          arith,
          here,
          looked_at user (hexists user w.ledger_by_user) w w1
              (λ noted. ground (arith, open_now, noted, here)) look,
        ) in
        kept (Aligned u) rest
          (Keeps-check_buyers (Aligned u) (IsAligned-IsKept u) api env users w1 aligned)

    Open-after :
        text_eq user u ≡ false
        → (w1 : World Q) × Open u w1.stores.db w1.ledger_by_user
          × (check_buyers api env users w1 ≡ (ok tt, w'))
    Open-after other =
        let (w1, look, rest) = checked_user in
        (
          w1,
          kept (Open u) look
              (Keeps-check_unless (Open u) user (Open-IsKept u user other) api env _ w open_now),
          rest,
        )

  -- A listed user is aligned behind the page; another is open still.
  pub check_buyers-listed :
      (u : Text) (users : List Text) (w w' : World Q)
      → Open u w.stores.db w.ledger_by_user
      → check_buyers api env users w ≡ (ok tt, w')
      → is_listed u users ≡ true
      → IsAligned u w'.stores.db
  check_buyers-listed u [] w w' o h listed = absurd (ground (arith, listed))
  check_buyers-listed u (user ∷ users) w w' o h listed = elim (Bool-cases (text_eq user u)) [
    | inl same ↦ aligned_here u user users w w' o h same
    | inr other ↦
        let (w1, o1, rest) = Open-after u user users w w' o h other in
        check_buyers-listed u users w1 w' o1 rest (ground (arith, listed, other))
  ]

  pub check_buyers-Open :
      (u : Text) (users : List Text) (w w' : World Q)
      → Open u w.stores.db w.ledger_by_user
      → check_buyers api env users w ≡ (ok tt, w')
      → is_listed u users ≡ false
      → Open u w'.stores.db w'.ledger_by_user
  check_buyers-Open u [] w w' o h listed = unfold check_buyers in ground (arith, o, h)
  check_buyers-Open u (user ∷ users) w w' o h listed =
      let (w1, o1, rest) = Open-after u user users w w' o h (ground (arith, listed)) in
      check_buyers-Open u users w1 w' o1 rest (ground (arith, listed))
