-- ===== src/Redis/Ledger/Repair.antt =====
-- The repairs: what the reconciliation scripts and the seed do to a ledger, sound or not.
use bookipi_technical_test.Prelude.{
  ℕ, ap, ◌-◌, ◌≤◌, ◌<◌, ◌≡◌, refl, false, some, List, [], ◌∷◌, pos, arith, inl, inr, ◌⊎◌, ◌-ℤ◌,
  if◌then◌else◌,
}
use bookipi_technical_test.Text.{Text, text_eq, text_eq_iff}
use bookipi_technical_test.Redis.Hash.{hexists, hlen, IsDistinct}
use bookipi_technical_test.Redis.Members.{
  is_listed, sismember, sismember-sadd, sismember-srem, sadd_present, srem_absent,
}
use bookipi_technical_test.Redis.Db.{SaleDb, config_field}
use bookipi_technical_test.Redis.Scripts.Reconcile.{
  reconcile_state, ReconcileStateOutcome, overcommitted,
}
use bookipi_technical_test.Redis.Scripts.Membership.{reconcile_membership, present, absent}
use bookipi_technical_test.Redis.Scripts.Seed.{seed, SeedArgs}
use bookipi_technical_test.Redis.Ledger.Invariant.{IsSound}

-- A sale that exists is not created again: the seed changes no key.
pub seed_again_lem :
    (a : SeedArgs) (db : SaleDb) {total : ℕ} → IsSound total db → (seed a db).1 ≡ db
unfolding seed
seed_again_lem a db h = ground (arith, h.on_file)

-- The script makes this one user a buyer exactly if he holds a reservation, and says which.
pub reconcile_membership_lem :
    (user u : Text) (db : SaleDb)
    → (sismember u (reconcile_membership user db).1.buyers
        ≡ (if text_eq user u then hexists u db.reservations else sismember u db.buyers))
      × ((reconcile_membership user db).0
          ≡ (if hexists user db.reservations then present else absent))
unfolding reconcile_membership
reconcile_membership_lem user u db =
    ground
      (arith, sismember-sadd user u db.buyers, sismember-srem user u db.buyers, text_eq_iff user u)

-- The repair of the buyers changes no reservation, no stock and no config.
pub reconcile_membership_frame :
    (user : Text) (db : SaleDb)
    → ((reconcile_membership user db).1.config ≡ db.config)
      × ((reconcile_membership user db).1.stock ≡ db.stock)
      × ((reconcile_membership user db).1.reservations ≡ db.reservations)
unfolding reconcile_membership
reconcile_membership_frame user db = ground arith

-- In a sound ledger there is nothing to repair.
pub reconcile_membership_sound :
    (total : ℕ) (user : Text) (db : SaleDb)
    → IsSound total db
    → (reconcile_membership user db).1 ≡ db
unfolding reconcile_membership
reconcile_membership_sound total user db h =
    ground (arith, h.aligned user, sadd_present user db.buyers, srem_absent user db.buyers)

pub reconcile_state_sound :
    (total : ℕ) (db : SaleDb) → IsSound total db → (reconcile_state db).1 ≡ db
unfolding reconcile_state ◌-ℤ◌
reconcile_state_sound total db h = ground (arith, h.on_file, h.bounded, h.conserved)

-- On any ledger with a total: the stock is derived from the reservations if they fit the total, and
-- else nothing is written and the ledger is reported as overcommitted.
pub reconcile_state_lem :
    (total : ℕ) (db : SaleDb)
    → config_field (λ c. c.total_stock) db.config ≡ some (pos total)
    → let count = hlen db.reservations in
      ((count ≤ total)
        × ((reconcile_state db).0.code ≡ ReconcileStateOutcome.reconciled)
        × ((reconcile_state db).1 ≡ record db { stock = some (pos (total - count)) }))
      ⊎ ((total < count)
          × ((reconcile_state db).0.code ≡ overcommitted)
          × ((reconcile_state db).1 ≡ db))
unfolding reconcile_state ◌-ℤ◌
reconcile_state_lem total db h = ground arith

-- The pass over a list of users, as the reconciliation of the worker makes it.
unfoldable pub realign : List Text → SaleDb → SaleDb
realign [] db = db
realign (u ∷ us) db = realign us (reconcile_membership u db).1

realign_lem :
    (us : List Text) (u : Text) (db : SaleDb)
    → (sismember u (realign us db).buyers
        ≡ (if is_listed u us then hexists u db.reservations else sismember u db.buyers))
      × ((realign us db).config ≡ db.config)
      × ((realign us db).stock ≡ db.stock)
      × ((realign us db).reservations ≡ db.reservations)
unfolding realign
realign_lem [] u db = (refl, refl, refl, refl)
realign_lem (x ∷ us) u db = ground (
  arith,
  realign_lem us u (reconcile_membership x db).1,
  reconcile_membership_lem x u db,
  reconcile_membership_frame x db,
)

-- Whatever drifted, if every buyer and holder is realigned and the stock is derived again, the
-- ledger is sound, as long as the reservations are no more than the total.
pub repair-IsSound :
    (total : ℕ) (us : List Text) (db : SaleDb)
    → config_field (λ c. c.total_stock) db.config ≡ some (pos total)
    → hlen db.reservations ≤ total
    → IsDistinct db.reservations
    → ((u : Text) → is_listed u us ≡ false → sismember u db.buyers ≡ hexists u db.reservations)
    → IsSound total (reconcile_state (realign us db)).1
repair-IsSound total us db on_file fits distinct listed =
    elim (reconcile_state_lem total (realign us db) total_kept) [
      | inl (small, _, e) ↦ rw e (record {
        on_file = total_kept;
        bounded = small;
        conserved = refl;
        distinct = rw kept distinct;
        aligned = λ u. ground (arith, realign_lem us u db, listed u);
      })
      | inr (big, _, _) ↦ absurd (omega (arith, big, fits, ap hlen kept))
    ]
  where
    kept : (realign us db).reservations ≡ db.reservations
    kept = (realign_lem us [] db).3

    total_kept : config_field (λ c. c.total_stock) (realign us db).config ≡ some (pos total)
    total_kept = rw (realign_lem us [] db).1 on_file
