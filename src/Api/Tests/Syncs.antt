-- ===== src/Api/Tests/Syncs.antt =====
-- The clock of a pod on small runs of syncs.
use bookipi_technical_test.Prelude.{
  ◌≡◌, refl, ℕ, pos, negsuc, [], ◌∷◌, List, ok, throw, plain_error, arith, ◌+ℤ◌, ◌-ℤ◌, map,
}
use bookipi_technical_test.Redis.Scripts
use bookipi_technical_test.Shared.Results.{sale_ended}
use bookipi_technical_test.Redis.Scripts.Purchase
use bookipi_technical_test.Api.Guard.{
  SaleSnapshotEntry, evaluate_fast_path_guard, guard_window, guard_result,
}
use bookipi_technical_test.Api.Clock.{
  Sync, ClockSample, attempt_sync, push_sample, lowest_from, rounded_offset, now_ms, is_fresh,
  age_ms, get,
}
use bookipi_technical_test.Api.Clock.Laws.{guard_after_syncs}
use bookipi_technical_test.Api.Tests.{ann, id1, open_db, at_second, cached_sale, guard_env}

-- A sync that failed, and one whose reply left Redis 1000 milliseconds ahead of the pod.
abbrev two_syncs : List Sync
two_syncs =
    record { t0 = 5000; reply = throw plain_error; t1 = 5001 }
    ∷ record { t0 = 7998; reply = ok cached_sale.snapshot; t1 = 8003 }
    ∷ []

abbrev cached_later : SaleSnapshotEntry
cached_later = record { snapshot = cached_sale.snapshot; age_ms = pos 1997 }

guard_after_syncs_example :
    (Scripts.Purchase.purchase (at_second 11) ann id1 open_db).0.code ≡ sale_ended
unfolding evaluate_fast_path_guard guard_window ◌+ℤ◌ ◌-ℤ◌ attempt_sync push_sample lowest_from
    rounded_offset now_ms is_fresh age_ms get
guard_after_syncs_example =
    guard_after_syncs 1000 0 two_syncs 10000 cached_later guard_env
      (guard_result sale_ended (pos 11000)) (at_second 11) ann id1 open_db refl refl refl refl refl
      refl (ground arith)

abbrev trip : ℕ → ClockSample
trip n = record { offset_ms = pos 0; rtt_ms = pos n }

-- A half is rounded up, below zero too.
rounds_up : rounded_offset 5 7 10 ≡ negsuc 2
unfolding rounded_offset
rounds_up = refl

-- The lowest round trip of the last five counts: the first of six has gone.
six_samples :
    map (λ s. s.rtt_ms) (push_sample (trip 6) (trip 1 ∷ trip 5 ∷ trip 4 ∷ trip 3 ∷ trip 7 ∷ []))
    ≡ pos 5 ∷ pos 4 ∷ pos 3 ∷ pos 7 ∷ pos 6 ∷ []
unfolding push_sample
six_samples = refl
