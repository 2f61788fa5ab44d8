-- ===== src/Worker/Tests/Queue.antt =====
-- The theorems that take the queue as a parameter, on a small queue: its jobs by their identities.
use bookipi_technical_test.Prelude.{
  suc, ◌-◌, ◌≡◌, ◌⊎◌, refl, false, true, Option, none, some, [], ◌∷◌, map, ok, arith, leb, length,
  take, drop, if◌then◌else◌, ◌+ℤ◌,
}
use bookipi_technical_test.Text.{
  Text, codes, text_eq, text_eq_refl, all_codes, split_at, contains_code, decimal, parse_decimal,
}
use bookipi_technical_test.Shared.Keys.{assert_sale_id, sale_id_pattern}
use bookipi_technical_test.Shared.UserId.{assert_user_id, trim, drop_space, user_id_pattern}
use bookipi_technical_test.Shared.Uuid.{is_uuid, versioned}
use bookipi_technical_test.Shared.Pattern.{matches}
use bookipi_technical_test.Shared.Queue.{
  assert_payload, payload_object, build_orders_job_id, request_id_pattern, property, includes,
}
use bookipi_technical_test.Redis.Hash.{Hash, hget, hset, hdel, hget-hset_self, hget-hdel}
use bookipi_technical_test.Redis.Members.{sismember, sadd, srem}
use bookipi_technical_test.Redis.Scripts
use bookipi_technical_test.Redis.Scripts.Compensate.{release, entry_id}
use bookipi_technical_test.Redis.Scripts.Membership.{compare_restore, inspect}
use bookipi_technical_test.Redis.Store.Entry.{
  ReservationEntry, assert_restore_input, only_restore_keys, restore_input_of,
  parse_reservation_entry, decode_inspection, assert_member,
}
use bookipi_technical_test.Redis.Store.Methods.{
  compare_and_restore_reservation, decode_restore, inspect_reservation_membership, compensate,
  decode_compensate,
}
use bookipi_technical_test.Worker.Step.{continue}
use bookipi_technical_test.Worker.Job.{Job, waiting, failed, classify_queue_entry, is_exhausted}
use bookipi_technical_test.Worker.Queue.{QueueApi, NewJob}
use bookipi_technical_test.Worker.World.{World}
use bookipi_technical_test.Worker.Enqueue.{ensure_live_reservation_queued, enqueue_live_reservation}
use bookipi_technical_test.Worker.Enqueue.Laws.{IsBullMq, IsQueued, enqueued-IsQueued}
use bookipi_technical_test.Worker.Postgres.{
  find_user, insert_order, row_checks, has_id, has_sale, find_sale, uuid_text,
}
use bookipi_technical_test.Worker.Orders.{
  acknowledged, persisted_row, get_by_user, resolve_failed, resolve_work, resolve_row, transaction,
  mark,
}
use bookipi_technical_test.Worker.Recovery.{
  adjudicate_buyer_only, resolve_finally, resolve_buyer_inspection, decide_buyer,
  apply_recovery_candidate, on_conflict,
}
use bookipi_technical_test.Worker.Recovery.Laws.{has_no_ghost, no_ghost_buyer}
use bookipi_technical_test.Worker.Sweep.{
  SweepCounts, no_counts, sweep_failed, sweep_jobs, sweep_job, may_resolve, next_offset,
}
use bookipi_technical_test.Worker.Sweep.Laws.{IsInside, IsPageSwept, sweep_failed_lem}
use bookipi_technical_test.Worker.Tests.{ann, id1, ann_payload, ann_stores, failed_job, test_env}

abbrev pub added_job : NewJob → Job
added_job n = record {
  id = some n.job_id;
  name = n.name;
  data_value = payload_object n.payload;
  attempts = some n.attempts;
  attempts_made = 0;
  failed_reason = none;
  stalled_counter = 0;
}

-- An identity that is there already keeps its job; what `add` gives back has the caller's data.
abbrev put : NewJob → Hash Job → Option Job → Hash Job
put n q (some job) = q
put n q none = hset n.job_id (added_job n) q

-- A job that is found has the identity that it was found under.
abbrev under : Text → Option Job → Option Job
under id none = none
under id (some job) = some (record job { id = some id })

abbrev id_of : Job → Text
id_of job = elim job.id [ none ↦ [] | some id ↦ id ]

abbrev pub small_queue : QueueApi (Hash Job)
small_queue = record {
  get_job = λ id q. (ok (under id (hget id q)), q);
  get_state = λ job q. (ok (if leb 5 job.attempts_made then failed else waiting), q);
  add = λ n q. (ok (added_job n), put n q (hget n.job_id q));
  remove = λ job q. (ok tt, hdel (id_of job) q);
  get_jobs =
      λ st start stop q. (ok (map (λ e. some e.1) (take (suc stop - start) (drop start q))), q);
  get_failed_count = λ q. (ok (length q), q);
  get_active_count = λ q. (ok 0, q);
  get_job_counts = λ q. (ok (0, 0), q);
  pause = λ q. (ok tt, q);
  resume = λ q. (ok tt, q);
  is_paused = λ q. (ok true, q);
}

small_queue-IsBullMq : IsBullMq small_queue
small_queue-IsBullMq = record {
  get_job_reads = λ id q. refl;
  get_state_reads = λ job q. refl;
  add_stores =
      λ n q q' job free h. ground (arith, free, h, hget-hset_self n.job_id (added_job n) q);
  remove_takes =
      λ id job q q' there h. ground (arith, there, h, hget-hdel id id q, text_eq_refl id);
}

abbrev ann_entry : ReservationEntry
ann_entry = record { user_id = ann; reservation_id = id1; reserved_at_ms = some 2000 }

abbrev pub empty_world : World (Hash Job)
empty_world = record {
  stores = ann_stores;
  queue = [];
  failed_scan_offset = 0;
  failed_jobs = 0;
  active_jobs = 0;
  aborted = false;
  by_user = [];
  ledger_by_user = [];
  incidents = [];
}

abbrev ann_job_id : Text
ann_job_id = codes "flash-1-ann"

abbrev repaired : Job
repaired = added_job (record {
  name = codes "persist-order";
  payload = record ann_payload {
    request_id = codes "reconcile-3f2504e0-4f89-41d3-9a0c-0305e82c3301";
  };
  job_id = ann_job_id;
  attempts = 5;
})

enqueued-IsQueued_example :
    IsQueued small_queue test_env ann_entry ann_job_id
      (record empty_world { queue = (ann_job_id, repaired) ∷ [] })
unfolding ensure_live_reservation_queued enqueue_live_reservation classify_queue_entry
    assert_payload text_eq assert_sale_id sale_id_pattern assert_user_id trim drop_space
    user_id_pattern all_codes is_uuid matches versioned request_id_pattern build_orders_job_id
    payload_object hget hset continue
enqueued-IsQueued_example =
    enqueued-IsQueued small_queue test_env ann_entry none none ann_job_id empty_world
      (record empty_world { queue = (ann_job_id, repaired) ∷ [] }) small_queue-IsBullMq tt refl refl

-- Redis has lost the reservation of ann, who has a persisted order.
abbrev ghost_world : World (Hash Job)
ghost_world = record empty_world {
  stores = record {
    db = record ann_stores.db { reservations = [] };
    tables = record ann_stores.tables { orders = persisted_row 3000 ann_payload ∷ [] };
  };
}

abbrev adjudicated : World (Hash Job)
adjudicated = (adjudicate_buyer_only small_queue test_env ann ghost_world).1

no_ghost_buyer_example : has_no_ghost ann adjudicated.stores.db ≡ true
unfolding adjudicate_buyer_only resolve_finally resolve_buyer_inspection decide_buyer
    apply_recovery_candidate on_conflict compare_and_restore_reservation assert_restore_input
    only_restore_keys restore_input_of decode_restore parse_reservation_entry compare_restore
    inspect_reservation_membership decode_inspection assert_member inspect get_by_user find_user
    ensure_live_reservation_queued enqueue_live_reservation classify_queue_entry assert_payload
    text_eq assert_sale_id sale_id_pattern assert_user_id trim drop_space user_id_pattern all_codes
    is_uuid matches versioned request_id_pattern build_orders_job_id payload_object hget hset sadd
    sismember continue entry_id split_at property includes contains_code decimal parse_decimal
no_ghost_buyer_example = no_ghost_buyer small_queue test_env ann ghost_world adjudicated refl

abbrev failed_world : World (Hash Job)
failed_world = record empty_world { queue = (ann_job_id, failed_job) ∷ [] }

abbrev swept_world : World (Hash Job)
swept_world = (sweep_failed small_queue test_env (λ _. acknowledged) failed_world).1

abbrev one_removed : SweepCounts
one_removed = record { retained = 0; removed = 1; errors = 0 }

sweep_failed_lem_example :
    IsInside small_queue test_env (λ _. acknowledged) swept_world
    × (((one_removed ≡ no_counts) × (swept_world.stores ≡ failed_world.stores))
        ⊎ IsPageSwept small_queue test_env
            (λ _. acknowledged)
            one_removed
            failed_world.stores
            swept_world.stores)
unfolding sweep_failed sweep_jobs sweep_job may_resolve is_exhausted next_offset resolve_failed
    resolve_work resolve_row transaction mark insert_order row_checks find_user has_id has_sale
    find_sale uuid_text compensate decode_compensate assert_member Scripts.Compensate.compensate
    release entry_id split_at hget hdel sismember srem ◌+ℤ◌ classify_queue_entry assert_payload
    text_eq assert_sale_id sale_id_pattern assert_user_id trim drop_space user_id_pattern all_codes
    is_uuid matches versioned request_id_pattern build_orders_job_id payload_object continue
sweep_failed_lem_example =
    sweep_failed_lem small_queue test_env (λ _. acknowledged) one_removed failed_world swept_world
      refl
