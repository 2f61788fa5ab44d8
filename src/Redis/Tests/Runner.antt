-- ===== src/Redis/Tests/Runner.antt =====
-- purchase.lua on a server that has just been flushed: EVALSHA misses, and EVAL runs the script.
use bookipi_technical_test.Prelude.{
  ◌≡◌, refl, Bool, true, false, [], ◌∷◌, ◌++◌, ok, arith, Thrown, plain_error,
}
use bookipi_technical_test.Text.{Text, codes}
use bookipi_technical_test.Redis.Db.{SaleDb}
use bookipi_technical_test.Redis.Scripts.Purchase.{PurchaseReply, purchase}
use bookipi_technical_test.Redis.Runner.{
  EvalReply, value, failed, no_script, Client, IsServer, run_script, run_script_once,
}
use bookipi_technical_test.Redis.Tests.{at_ms, bob, id2, held}

abbrev buys : SaleDb → PurchaseReply × SaleDb
buys db = purchase (at_ms 2000) bob id2 db

-- Whether the script is in the cache, and the keys.
abbrev evaluated : Bool × SaleDb → EvalReply PurchaseReply × (Bool × SaleDb)
evaluated (known, db) = let (reply, after) = buys db in (value reply, (true, after))

abbrev no_match : Text
no_match = codes " No matching script. Please use EVAL."

abbrev by_sha : Bool × SaleDb → EvalReply PurchaseReply × (Bool × SaleDb)
by_sha (true, db) = evaluated (true, db)
by_sha (false, db) = (failed (no_script ++ no_match) plain_error, (false, db))

abbrev server : Client (Bool × SaleDb) PurchaseReply
server = record { evalsha = by_sha; eval = evaluated }

hits :
    (s : Bool × SaleDb)
    → s.0 ≡ true
    → ((by_sha s).0 ≡ value (buys s.1).0)
      × ((by_sha s).1.1 ≡ (buys s.1).1)
      × ((by_sha s).1.0 ≡ true)
hits (true, db) k = (refl, refl, refl)
hits (false, db) k = absurd (ground (arith, k))

misses :
    (s : Bool × SaleDb)
    → s.0 ≡ false
    → (rest : Text) × (e : Thrown) × (by_sha s ≡ (failed (no_script ++ rest) e, s))
misses (true, db) k = absurd (ground (arith, k))
misses (false, db) k = (no_match, plain_error, refl)

server-IsServer : IsServer server (λ s. s.0) (λ s. s.1) buys
server-IsServer = record { hit = hits; miss = misses; loads = λ s. (refl, refl, refl) }

run_script_once_example :
    let (reply, after) =
      run_script server 4 (codes "k1" ∷ codes "k2" ∷ codes "k3" ∷ codes "k4" ∷ []) (false, held) in
    (reply ≡ ok (buys held).0) × (after.1 ≡ (buys held).1) × (after.0 ≡ true)
run_script_once_example =
    run_script_once server (λ s. s.0) (λ s. s.1) buys 4
      (codes "k1" ∷ codes "k2" ∷ codes "k3" ∷ codes "k4" ∷ []) (false, held) server-IsServer refl
