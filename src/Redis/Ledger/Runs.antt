-- ===== src/Redis/Ledger/Runs.antt =====
-- Every sequence of script calls on one sale: what Redis, which runs one script at a time, can be
-- made to do by any interleaving of clients.
use bookipi_technical_test.Prelude.{
  ℕ, suc, ap, ◌+◌, ◌≡◌, refl, none, some, List, [], ◌∷◌, pos, arith, inl, inr,
}
use bookipi_technical_test.Text.{Text}
use bookipi_technical_test.Redis.Hash.{
  hget, hset, hexists, hlen, hlen-hset_new, hlen-hdel, hget_of_absent,
}
use bookipi_technical_test.Redis.Members.{sismember}
use bookipi_technical_test.Redis.Db.{SaleDb, RedisTime, now_ms}
use bookipi_technical_test.Redis.Scripts.Purchase.{
  purchase, PurchaseOutcome, confirmed, ledger_value,
}
use bookipi_technical_test.Redis.Scripts.Compensate.{compensate, CompensateOutcome, compensated}
use bookipi_technical_test.Redis.Scripts.Reconcile.{reconcile_state}
use bookipi_technical_test.Redis.Scripts.Membership.{reconcile_membership}
use bookipi_technical_test.Redis.Scripts.Seed.{seed, SeedArgs}
use bookipi_technical_test.Redis.Ledger.Effects.{units, Purchased, purchase_effect}
use bookipi_technical_test.Redis.Ledger.Invariant.{
  IsSound, purchase-IsSound, compensate-IsSound, compensate_lem,
}
use bookipi_technical_test.Redis.Ledger.Repair.{
  seed_again_lem, reconcile_membership_sound, reconcile_state_sound,
}

-- A call of live traffic, or of a pod that boots or reconciles meanwhile.
pub data Call : Type 0 where
  buy : RedisTime → Text → Text → Call
  undo : Text → Text → Call
  align : Text → Call
  derive : Call
  boot : SeedArgs → Call

-- The confirmed purchases and the returned units that a run has replied with.
pub record Tally : Type 0 where
  pub sold : ℕ
  pub returned : ℕ

abbrev pub count_sale : PurchaseOutcome → Tally → Tally
count_sale confirmed n = record n { sold = n.sold + 1 }
count_sale _ n = n

abbrev pub count_return : CompensateOutcome → Tally → Tally
count_return compensated n = record n { returned = n.returned + 1 }
count_return _ n = n

unfoldable pub step : Call → Tally × SaleDb → Tally × SaleDb
step (buy t user id) (n, db) =
    let (reply, db') = purchase t user id db in (count_sale reply.code n, db')
step (undo user id) (n, db) =
    let (reply, db') = compensate user id db in (count_return reply.code n, db')
step (align user) (n, db) = (n, (reconcile_membership user db).1)
step derive (n, db) = (n, (reconcile_state db).1)
step (boot a) (n, db) = (n, (seed a db).1)

unfoldable pub run : List Call → Tally × SaleDb → Tally × SaleDb
run [] s = s
run (c ∷ cs) s = run cs (step c s)

-- The books balance: what was sold is what was returned and what is still held.
pub record Balanced (total : ℕ) (s : Tally × SaleDb) : Type 0 where
  pub sound : IsSound total s.1
  pub books : s.0.sold ≡ s.0.returned + hlen s.1.reservations

Purchased-books :
    (c : PurchaseOutcome) (total now : ℕ) (user id : Text) (n : Tally) (db db' : SaleDb)
    → Balanced total (n, db)
    → Purchased c now user id db db'
    → (count_sale c n).sold ≡ (count_sale c n).returned + hlen db'.reservations
Purchased-books confirmed total now user id n db db' h (free, _, e) =
    rw e (omega (arith, h.books, grown))
  where
    grown : hlen (hset user (ledger_value id now) db.reservations) ≡ suc (hlen db.reservations)
    grown =
        hlen-hset_new user (ledger_value id now) db.reservations
          (hget_of_absent user db.reservations (ground arith))
Purchased-books PurchaseOutcome.already_purchased total now user id n db db' h p = rw p.1 h.books
Purchased-books _ total now user id n db db' h p = rw p h.books

step-buy_Balanced :
    (total : ℕ) (t : RedisTime) (user id : Text) (n : Tally) (db : SaleDb)
    → Balanced total (n, db)
    → Balanced total (step (buy t user id) (n, db))
unfolding step
step-buy_Balanced total t user id n db h =
    let (reply, db') = purchase t user id db in
    record {
      sound = purchase-IsSound total t user id db h.sound;
      books =
          Purchased-books reply.code total (now_ms t) user id n db db' h
            (purchase_effect t user id db);
    }

step-undo_Balanced :
    (total : ℕ) (user id : Text) (n : Tally) (db : SaleDb)
    → Balanced total (n, db)
    → Balanced total (step (undo user id) (n, db))
unfolding step
step-undo_Balanced total user id n db h = elim (compensate_lem total user id db h.sound) [
  | inl (v, held, _, e) ↦ rw e (record {
    sound = rw e at (compensate-IsSound total user id db h.sound);
    books = omega (arith, h.books, hlen-hdel user v db.reservations h.sound.distinct held);
  })
  | inr e ↦ rw e h
]

step-Balanced :
    (total : ℕ) (c : Call) (s : Tally × SaleDb) → Balanced total s → Balanced total (step c s)
unfolding step
step-Balanced total (buy t user id) s h = step-buy_Balanced total t user id s.0 s.1 h
step-Balanced total (undo user id) s h = step-undo_Balanced total user id s.0 s.1 h
step-Balanced total (align user) s h = rw (reconcile_membership_sound total user s.1 h.sound) h
step-Balanced total derive s h = rw (reconcile_state_sound total s.1 h.sound) h
step-Balanced total (boot a) s h = rw (seed_again_lem a s.1 h.sound) h

run-Balanced :
    (total : ℕ) (cs : List Call) (s : Tally × SaleDb) → Balanced total s → Balanced total (run cs s)
unfolding run
run-Balanced total [] s h = h
run-Balanced total (c ∷ cs) s h = run-Balanced total cs (step c s) (step-Balanced total c s h)

-- The first boot of a sale, whose keys do not exist yet.
abbrev pub empty_db : SaleDb
empty_db = record { config = none; stock = none; buyers = []; reservations = []; metrics = [] }

abbrev pub no_sales : Tally
no_sales = record { sold = 0; returned = 0 }

pub seed-IsSound :
    (a : SeedArgs) (total : ℕ)
    → a.total_stock ≡ pos total
    → a.stock_remaining ≡ pos total
    → IsSound total (seed a empty_db).1
unfolding seed hexists hget sismember
seed-IsSound a total e f = record {
  on_file = ap some e;
  bounded = omega arith;
  conserved = rw f (ap (λ n. some (pos n)) (omega arith));
  distinct = tt;
  aligned = λ u. refl;
}

-- No oversell: from the seed of a sale with a given total, whatever calls of purchase, compensate,
-- reconcile-membership, reconcile-state and seed follow, in any order, at any times and with any
-- identities, the units sold are those returned and those still held, the units held and the stock
-- that is left make up the total, and so no more than the total is held at any time.
pub no_oversell :
    (a : SeedArgs) (total : ℕ) (cs : List Call)
    → a.total_stock ≡ pos total
    → a.stock_remaining ≡ pos total
    → let (n, db) = run cs (no_sales, (seed a empty_db).1) in
      (n.sold ≡ n.returned + hlen db.reservations)
      × (units db + hlen db.reservations ≡ total)
      × (db.stock ≡ some (pos (units db)))
no_oversell a total cs e f = ground (arith, last.books, last.sound.conserved, last.sound.bounded)
  where
    first : Balanced total (no_sales, (seed a empty_db).1)
    first = record { sound = seed-IsSound a total e f; books = unfold seed in omega arith }

    last : Balanced total (run cs (no_sales, (seed a empty_db).1))
    last = run-Balanced total cs (no_sales, (seed a empty_db).1) first
