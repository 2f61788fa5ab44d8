-- ===== src/Redis/Store/Laws.antt =====
-- What the store's methods add to the scripts: they recognise every reply, they refuse an invalid
-- sale, and what they read back is what was written.
use bookipi_technical_test.Prelude.{
  ℕ, ◌-◌, ◌≤◌, ◌≡◌, refl, true, false, some, [], ◌∷◌, arith, ok, ap, ◌∙◌,
}
use bookipi_technical_test.Text.{
  Text, text_eq, text_eq_refl, split_at-append, decimal, parse_decimal-decimal, parse_decimal_code,
}
use bookipi_technical_test.Shared.Keys.{assert_sale_id}
use bookipi_technical_test.Shared.UserId.{assert_user_id}
use bookipi_technical_test.Shared.Uuid.{is_uuid, is_uuid_no_colon}
use bookipi_technical_test.Shared.Results.{PurchaseOutcome, purchase_word, purchase_outcomes}
use bookipi_technical_test.Redis.Hash.{hget-hset_self}
use bookipi_technical_test.Redis.Members.{sismember-sadd}
use bookipi_technical_test.Redis.Db.{SaleDb, RedisTime, now_ms}
use bookipi_technical_test.Redis.Scripts
use bookipi_technical_test.Redis.Scripts.Purchase.{PurchaseReply, ledger_value}
use bookipi_technical_test.Redis.Scripts.Compensate.{CompensateOutcome}
use bookipi_technical_test.Redis.Scripts.Membership.{InspectOutcome, both}
use bookipi_technical_test.Redis.Store.Entry.{
  assert_member, is_empty, ReservationEntry, parse_reservation_entry, decode_inspection,
  compensate_word, compensate_outcomes, inspect_word, inspect_outcomes,
}
use bookipi_technical_test.Redis.Store.Methods.{
  purchase, get_reservation, inspect_reservation_membership, confirmed_id, decode_purchase,
}
use bookipi_technical_test.Redis.Ledger.Effects.{Purchased, purchase_effect, units, reserved}

recognise_purchase :
    (c : PurchaseOutcome) → assert_member purchase_word purchase_outcomes (purchase_word c) ≡ ok c
unfolding assert_member text_eq
recognise_purchase PurchaseOutcome.confirmed = refl
recognise_purchase _ = refl

recognise_compensate :
    (c : CompensateOutcome)
    → assert_member compensate_word compensate_outcomes (compensate_word c) ≡ ok c
unfolding assert_member text_eq
recognise_compensate CompensateOutcome.compensated = refl
recognise_compensate _ = refl

recognise_inspect :
    (c : InspectOutcome) → assert_member inspect_word inspect_outcomes (inspect_word c) ≡ ok c
unfolding assert_member text_eq
recognise_inspect InspectOutcome.both = refl
recognise_inspect _ = refl

decode_purchase_lem :
    (r : PurchaseReply)
    → decode_purchase r
      ≡ ok (record {
        outcome = r.code;
        stock_remaining = r.stock_remaining;
        server_time_ms = r.server_time_ms;
        reservation_id = confirmed_id r.code r.reservation_id;
      })
unfolding decode_purchase
decode_purchase_lem r = rw (recognise_purchase r.code)

-- `purchase` of a valid sale never throws: it recognises each word that the script can reply with,
-- returns the script's numbers and the keys that the script leaves, and an identity exactly if the
-- purchase is confirmed.
purchase_reply_recognised :
    (sale : Text) (t : RedisTime) (id user : Text) (db : SaleDb)
    → assert_sale_id sale ≡ ok tt
    → let (reply, after) = Scripts.Purchase.purchase t user id db in
      purchase sale t id user db ≡ (
        ok (record {
          outcome = reply.code;
          stock_remaining = reply.stock_remaining;
          server_time_ms = reply.server_time_ms;
          reservation_id = confirmed_id reply.code reply.reservation_id;
        }),
        after,
      )
unfolding purchase
purchase_reply_recognised sale t id user db valid =
    rw valid (ap (λ o. (o, after)) (decode_purchase_lem reply))
  where
    reply : PurchaseReply
    reply = (Scripts.Purchase.purchase t user id db).0

    after : SaleDb
    after = (Scripts.Purchase.purchase t user id db).1

-- The largest safe integer of JavaScript.
abbrev max_safe : ℕ
max_safe = 9007199254740991

-- A ledger value that the purchase script writes is read back as its identity and its time.
pub parse_reservation_entry-ledger_value :
    (user id : Text) (at : ℕ)
    → is_uuid id ≡ true
    → at ≤ max_safe
    → parse_reservation_entry user (ledger_value id at)
      ≡ ok (record { user_id = user; reservation_id = id; reserved_at_ms = some at })
unfolding parse_reservation_entry
parse_reservation_entry-ledger_value user id at uuid safe =
    let digits = parse_decimal_code b':' (decimal at) at refl (parse_decimal-decimal at) in
    rw (split_at-append b':' id (decimal at) (is_uuid_no_colon id uuid), parse_reservation_entry)
      (ground (arith, digits, parse_decimal-decimal at))

ledger_value_nonempty : (id : Text) (at : ℕ) → is_empty (ledger_value id at) ≡ false
ledger_value_nonempty [] at = refl
ledger_value_nonempty (c ∷ id) at = refl

module _ (sale user id : Text) (at n : ℕ) (db : SaleDb) (valid : assert_sale_id sale ≡ ok tt)
    (uuid : is_uuid id ≡ true) (safe : at ≤ max_safe) where
  entry_of : ReservationEntry
  entry_of = record { user_id = user; reservation_id = id; reserved_at_ms = some at }

  get_reserved :
      get_reservation sale user (reserved n user (ledger_value id at) db) ≡ ok (some entry_of)
  unfolding get_reservation entry_of
  get_reserved = ground (
    arith,
    valid,
    hget-hset_self user (ledger_value id at) db.reservations,
    parse_reservation_entry-ledger_value user id at uuid safe,
  )

  inspect_reserved :
      assert_user_id user ≡ ok tt
      → inspect_reservation_membership sale user (reserved n user (ledger_value id at) db)
        ≡ ok (record { outcome = both; reservation = some entry_of })
  unfolding inspect_reservation_membership Scripts.Membership.inspect decode_inspection entry_of
  inspect_reserved valid_user = ground (
    arith,
    valid,
    hget-hset_self user (ledger_value id at) db.reservations,
    sismember-sadd user user db.buyers,
    text_eq_refl user,
    recognise_inspect both,
    ledger_value_nonempty id at,
    parse_reservation_entry-ledger_value user id at uuid safe,
  )

-- What `purchase` confirmed is what the next reads of the store give: the ledger's entry, and the
-- inspection that finds the user both a buyer and a holder of it.
get_reservation-purchase :
    (sale : Text) (t : RedisTime) (id user : Text) (db : SaleDb)
    → assert_sale_id sale ≡ ok tt
    → assert_user_id user ≡ ok tt
    → is_uuid id ≡ true
    → now_ms t ≤ max_safe
    → (Scripts.Purchase.purchase t user id db).0.code ≡ PurchaseOutcome.confirmed
    → let after = (purchase sale t id user db).1 in
      let entry : ReservationEntry = record {
        user_id = user;
        reservation_id = id;
        reserved_at_ms = some (now_ms t);
      } in
      (get_reservation sale user after ≡ ok (some entry))
      × (inspect_reservation_membership sale user after
          ≡ ok (record { outcome = both; reservation = some entry }))
unfolding entry_of
get_reservation-purchase sale t id user db valid valid_user uuid safe c = rw left (
  get_reserved sale user id (now_ms t) (units db - 1) db valid uuid safe,
  inspect_reserved sale user id (now_ms t) (units db - 1) db valid uuid safe valid_user,
)
  where
    effect :
        Purchased PurchaseOutcome.confirmed
          (now_ms t)
          user
          id
          db
          (Scripts.Purchase.purchase t user id db).1
    effect = rw c at (purchase_effect t user id db)

    left :
        (purchase sale t id user db).1
        ≡ reserved (units db - 1) user (ledger_value id (now_ms t)) db
    left = ap (λ r. r.1) (purchase_reply_recognised sale t id user db valid) ∙ effect.2
