-- ===== src/Worker/Boot/Sound.antt =====
-- The sale that a boot leaves in Redis.
use bookipi_technical_test.Prelude.{
  ℕ, ◌≡◌, ◌⊎◌, inl, inr, refl, ◌∙◌, Bool, true, false, Option, none, some, List, [], ◌∷◌, ℤ, pos,
  negsuc, Outcome, ok, throw, arith, plain_error,
}
use bookipi_technical_test.Text.{Text}
use bookipi_technical_test.Shared.SaleState.{JsNumber}
use bookipi_technical_test.Redis.Hash.{IsDistinct}
use bookipi_technical_test.Redis.Db.{SaleDb, SaleConfig, RedisTime, config_field}
use bookipi_technical_test.Redis.Ledger.Invariant.{IsSound}
use bookipi_technical_test.Redis.Scripts
use bookipi_technical_test.Redis.Store.Methods.{
  SaleSnapshot, SeedResult, seed, decode_seed, status, decode_status,
}
use bookipi_technical_test.Redis.Store.Scan.{IsComplete, fields_of}
use bookipi_technical_test.Worker.Step.{Step, continue_ok, ensure}
use bookipi_technical_test.Worker.Env.{WorkerEnv}
use bookipi_technical_test.Worker.Queue.{QueueApi}
use bookipi_technical_test.Worker.World.{World, on_db, read_db}
use bookipi_technical_test.Worker.Sales.{eq_ℤ}
use bookipi_technical_test.Worker.Health.{PassResult}
use bookipi_technical_test.Worker.Pass.{run_diff}
use bookipi_technical_test.Worker.Pass.Ledger.{holds}
use bookipi_technical_test.Worker.Pass.Iteration.{buys, names}
use bookipi_technical_test.Worker.Pass.Sound.{IsReady, run_diff-IsSound}
use bookipi_technical_test.Worker.Service.{
  Service, Happening, stop_called, run_ended, pass_failed, pass_done, swept, Await, happen,
  happen_all, stop_now, run_terminated, next_await, awaited, on_world, replied, settle, call,
}
use bookipi_technical_test.Worker.Boot.{
  Outside, sale_config, matches_settings, ensure_sale_row, initialise, create_sale, settle_sale,
  run_pass, boot_sale,
}

module _ {Q : Type 0} where
  abbrev db_of : Service Q → SaleDb
  db_of s = s.world.stores.db

  happen_same : (e : Happening) (s : Service Q) → db_of (happen e s) ≡ db_of s
  unfolding happen stop_now run_terminated
  happen_same stop_called s = ground arith
  happen_same run_ended s = ground arith
  happen_same pass_failed s = refl
  happen_same (pass_done r) s = refl
  happen_same (swept n) s = refl

  happen_all_same : (es : List Happening) (s : Service Q) → db_of (happen_all es s) ≡ db_of s
  unfolding happen_all
  happen_all_same [] s = refl
  happen_all_same (e ∷ es) s = happen_all_same es (happen e s) ∙ happen_same e s

  awaited_same : (s : Service Q) → db_of (awaited s).1 ≡ db_of s
  unfolding awaited
  awaited_same s = replies s.awaits
    where
      replies : (waits : List Await) → db_of (next_await waits s).1 ≡ db_of s
      replies [] = refl
      replies (a ∷ rest) = happen_all_same a.happenings (record s { awaits = rest })

  settled_ok :
      {A : Type 0} (x : Outcome A × Service Q) (a : A) (s' : Service Q)
      → settle x ≡ (ok a, s')
      → (x.0 ≡ ok a) × (db_of s' ≡ db_of x.1)
  settled_ok (o, t) a s' h = ends (awaited t) refl h
    where
      ends :
          (x : Outcome (Unit {0}) × Service Q)
          → awaited t ≡ x
          → replied o x ≡ (ok a, s')
          → (o ≡ ok a) × (db_of s' ≡ db_of t)
      ends (ok _, u) e r = ground (arith, e, r, awaited_same t)
      ends (throw _, u) e r = absurd (ground (arith, r))

  -- An awaited call that ended well did what it does, and the awaited time nothing to Redis.
  call_ok :
      {A : Type 0} (f : Step (World Q) A) (s s' : Service Q) (a : A)
      → call f s ≡ (ok a, s')
      → ((f s.world).0 ≡ ok a) × (db_of s' ≡ (f s.world).1.stores.db)
  unfolding call
  call_ok f s s' a h = settled_ok (on_world f s) a s' h

-- No sale is on file in Redis, or one with its total.
abbrev pub has_total : Option SaleConfig → Bool
has_total none = true
has_total (some c) = elim c.total_stock [ none ↦ false | some n ↦ true ]

abbrev total_of : SaleDb → Option ℤ
total_of db = config_field (λ c. c.total_stock) db.config

status_lem :
    (sale : Text) (t : RedisTime) (db : SaleDb) (snapshot : SaleSnapshot)
    → status sale t db ≡ ok snapshot
    → ((snapshot.initialized ≡ false) × (total_of db ≡ none))
      ⊎ ((snapshot.initialized ≡ true) × (total_of db ≡ some snapshot.total_stock))
unfolding status decode_status Scripts.Seed.status
status_lem sale t db snapshot h = ground (arith, h)

seed_lem :
    (parse_date : Text → JsNumber) (env : WorkerEnv) (db db' : SaleDb) (r : SeedResult)
    → db.config ≡ none
    → seed parse_date (sale_config env) db ≡ (ok r, db')
    → (total_of db' ≡ some env.sale_total_stock) × (db'.reservations ≡ db.reservations)
unfolding seed decode_seed Scripts.Seed.seed
seed_lem parse_date env db db' r fresh h = ground (arith, fresh, h)

eq_ℤ_lem : (a : ℤ) (n : ℕ) → eq_ℤ a (pos n) ≡ true → a ≡ pos n
eq_ℤ_lem (pos m) n h = ground (arith, h)
eq_ℤ_lem (negsuc m) n h = ground (arith, h)

module _ {Q : Type 0} (api : QueueApi Q) (env : WorkerEnv) (outside : Outside) (total : ℕ)
    (wanted : env.sale_total_stock ≡ pos total) where
  create_sale-IsReady :
      (s s' : Service Q)
      → (db_of s).config ≡ none
      → IsDistinct (db_of s).reservations
      → create_sale api env outside s ≡ (ok tt, s')
      → IsReady total (db_of s')
  create_sale-IsReady s s' fresh distinct h = continue_ok h (λ r s1 called h1.
      continue_ok h1 (λ _ s2 checked last.
        let (replied, same) =
          call_ok (on_db (seed outside.parse_date (sale_config env))) s s1 r called in
        let (filed, kept) =
          seed_lem outside.parse_date env (db_of s)
            (seed outside.parse_date (sale_config env) (db_of s)).1 r fresh
            (ground (arith, replied)) in
        ground (arith, filed, kept, same, checked, last, wanted, distinct)))

  compared-IsReady :
      (snapshot : SaleSnapshot) (s s' : Service Q)
      → total_of (db_of s) ≡ some snapshot.total_stock
      → IsDistinct (db_of s).reservations
      → ensure (matches_settings outside.parse_date env snapshot) plain_error s ≡ (ok tt, s')
      → IsReady total (db_of s')
  compared-IsReady snapshot s s' filed distinct h =
      ground (arith, h, filed, distinct, wanted, eq_ℤ_lem snapshot.total_stock total)

  initialise-IsReady :
      (snapshot : SaleSnapshot) (s s' : Service Q)
      → has_total (db_of s).config ≡ true
      → ((snapshot.initialized ≡ false) × (total_of (db_of s) ≡ none))
        ⊎ ((snapshot.initialized ≡ true) × (total_of (db_of s) ≡ some snapshot.total_stock))
      → IsDistinct (db_of s).reservations
      → initialise api env outside snapshot s ≡ (ok tt, s')
      → IsReady total (db_of s')
  initialise-IsReady snapshot s s' whole (inl (new, missing)) distinct h =
      create_sale-IsReady s s' (ground (arith, whole, missing)) distinct (ground (arith, new, h))
  initialise-IsReady snapshot s s' whole (inr (old, filed)) distinct h =
      compared-IsReady snapshot s s' filed distinct (ground (arith, old, h))

  settle_sale-IsReady :
      (s s' : Service Q)
      → has_total (db_of s).config ≡ true
      → IsDistinct (db_of s).reservations
      → settle_sale api env outside s ≡ (ok tt, s')
      → IsReady total (db_of s')
  unfolding settle_sale
  settle_sale-IsReady s s' whole distinct h = continue_ok h (λ _ s1 c1 h1.
      continue_ok h1 (λ _ s2 row h2. continue_ok h2 (λ _ s3 c3 h3.
        continue_ok h3 (λ snapshot s4 read h4. continue_ok h4 (λ _ s5 c5 last.
          let (_, same2) =
            call_ok (ensure_sale_row outside.timestamptz outside.parse_date env) s1 s2 tt row in
          let (told, same4) =
            call_ok (read_db (status env.sale_id outside.redis_time)) s3 s4 snapshot read in
          let same : db_of s5 ≡ db_of s = ground (arith, c1, same2, c3, same4, c5) in
          initialise-IsReady snapshot s5 s' (rw same whole)
            (rw same (
              status_lem env.sale_id outside.redis_time (db_of s) snapshot
                (ground (arith, told, c1, same2, c3))))
            (rw same distinct) last)))))

  -- A boot that goes on from a drained queue to its end leaves a sound ledger with the total of the
  -- settings, whether the sale was new to Redis or had drifted in stock and buyers. A sale on file in
  -- Redis has its total, a hash holds each field once, and the iterations keep what Redis documents.
  pub boot_sale-IsSound :
      (result : PassResult) (s s' : Service Q)
      → IsComplete fields_of holds outside.reads.hscan
      → IsComplete names buys outside.reads.sscan
      → has_total s.world.stores.db.config ≡ true
      → IsDistinct s.world.stores.db.reservations
      → boot_sale api env outside s ≡ (ok result, s')
      → IsSound total s'.world.stores.db
  unfolding boot_sale run_pass
  boot_sale-IsSound result s s' holders buyers whole distinct h = continue_ok h (λ _ s1 settled h1.
      continue_ok h1 (λ _ s2 c2 h2. continue_ok h2 (λ r s3 ran h3. continue_ok h3 (λ _ s4 c4 last.
        let pass = run_diff api env outside.reads outside.commit outside.fuel in
        let ready = settle_sale-IsReady s s1 whole distinct settled in
        let (ended, same) = call_ok pass s2 s3 r ran in
        let sound =
          run_diff-IsSound api env outside.reads outside.commit outside.fuel total r s2.world
            (pass s2.world).1 holders buyers (ground (arith, ready, c2)) (ground (arith, ended)) in
        let kept : db_of s' ≡ (pass s2.world).1.stores.db = ground (arith, same, c4, last) in
        rw kept sound))))
