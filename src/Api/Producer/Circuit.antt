-- ===== src/Api/Producer/Circuit.antt =====
-- The producer's circuit: what a failed handoff keeps closed, and for how long.
use bookipi_technical_test.Prelude.{
  ℕ, ◌+◌, ◌<◌, ◌≡◌, Bool, true, false, ◌&&◌, none, some, List, [], ◌∷◌, arith, leb, ltb, ◌==◌,
  throw, plain_error,
}
use bookipi_technical_test.Api.Producer.{
  Producer, ProducerEvent, enqueue_begins, enqueue_ends, retirement_ends, close_begins,
  begin_enqueue, end_enqueue, finish_retirement, close_service, producer_step, producer_run,
}

-- The service's generation is this one, and it is being retired.
abbrev is_retiring : ℕ → Producer → Bool
is_retiring id p = elim p.generation [ none ↦ false | some g ↦ (g.id == id) && g.retiring ]

-- The service has no generation, and makes none before this time.
abbrev pub is_backing_off : ℕ → Producer → Bool
is_backing_off until p = elim p.generation [ none ↦ leb until p.reopen_at_ms | some g ↦ false ]

-- No retirement ends.
unfoldable pub none_retired : List ProducerEvent → Bool
none_retired [] = true
none_retired (retirement_ends now id ∷ es) = false
none_retired (_ ∷ es) = none_retired es

-- Every call begins before this time.
unfoldable pub all_begin_before : ℕ → List ProducerEvent → Bool
all_begin_before until [] = true
all_begin_before until (enqueue_begins now ∷ es) = ltb now until && all_begin_before until es
all_begin_before until (_ ∷ es) = all_begin_before until es

retiring_step :
    (id : ℕ) (e : ProducerEvent) (es : List ProducerEvent) (p : Producer)
    → is_retiring id p ≡ true
    → none_retired (e ∷ es) ≡ true
    → (is_retiring id (producer_step e p) ≡ true) × (none_retired es ≡ true)
unfolding producer_step none_retired begin_enqueue end_enqueue close_service
retiring_step id (enqueue_begins now) es p r n = ground arith
retiring_step id (enqueue_ends g succeeded) es p r n = ground arith
retiring_step id (retirement_ends now g) es p r n = absurd (ground (arith, n))
retiring_step id close_begins es p r n = ground arith

retiring_run :
    (id : ℕ) (es : List ProducerEvent) (p : Producer)
    → is_retiring id p ≡ true
    → none_retired es ≡ true
    → is_retiring id (producer_run es p) ≡ true
unfolding producer_run
retiring_run id [] p r n = r
retiring_run id (e ∷ es) p r n =
    let next = retiring_step id e es p r n in retiring_run id es (producer_step e p) next.0 next.1

backing_off_step :
    (until : ℕ) (e : ProducerEvent) (es : List ProducerEvent) (p : Producer)
    → is_backing_off until p ≡ true
    → all_begin_before until (e ∷ es) ≡ true
    → (is_backing_off until (producer_step e p) ≡ true) × (all_begin_before until es ≡ true)
unfolding producer_step all_begin_before begin_enqueue end_enqueue finish_retirement close_service
backing_off_step until (enqueue_begins now) es p b a = ground arith
backing_off_step until (enqueue_ends g succeeded) es p b a = ground arith
backing_off_step until (retirement_ends now g) es p b a = ground arith
backing_off_step until close_begins es p b a = ground arith

backing_off_run :
    (until : ℕ) (es : List ProducerEvent) (p : Producer)
    → is_backing_off until p ≡ true
    → all_begin_before until es ≡ true
    → is_backing_off until (producer_run es p) ≡ true
unfolding producer_run
backing_off_run until [] p b a = b
backing_off_run until (e ∷ es) p b a =
    let next = backing_off_step until e es p b a in
    backing_off_run until es (producer_step e p) next.0 next.1

refused_retiring :
    (id now : ℕ) (p : Producer)
    → is_retiring id p ≡ true
    → (begin_enqueue now p).0 ≡ throw plain_error
unfolding begin_enqueue
refused_retiring id now p r = ground arith

refused_backing_off :
    (until now : ℕ) (p : Producer)
    → is_backing_off until p ≡ true
    → now < until
    → (begin_enqueue now p).0 ≡ throw plain_error
unfolding begin_enqueue
refused_backing_off until now p b h = ground arith

finished_retirement :
    (id t : ℕ) (p : Producer)
    → is_retiring id p ≡ true
    → is_backing_off (t + 1000) (finish_retirement t id p) ≡ true
unfolding finish_retirement
finished_retirement id t p r = ground arith

-- The service's generation is this one.
abbrev pub is_current : ℕ → Producer → Bool
is_current id p = elim p.generation [ none ↦ false | some g ↦ g.id == id ]

failed_retires :
    (id : ℕ) (p : Producer)
    → is_current id p ≡ true
    → is_retiring id (end_enqueue id false p) ≡ true
unfolding end_enqueue
failed_retires id p h = ground (arith, h)

-- A failed handoff of the service's generation opens the circuit: from the moment it ends until the
-- retirement of that generation ends, whatever calls begin and end meanwhile, every new call is refused;
-- and once the retirement has ended, every new call of the next 1000 milliseconds is refused too,
-- whatever calls begin in that time, whatever old ones end and whatever other retirements end.
pub circuit_open :
    (id : ℕ) (before : Producer) (during after : List ProducerEvent) (any ended now : ℕ)
    → is_current id before ≡ true
    → none_retired during ≡ true
    → all_begin_before (ended + 1000) after ≡ true
    → now < ended + 1000
    → let p = end_enqueue id false before in
      ((begin_enqueue any (producer_run during p)).0 ≡ throw plain_error)
      × ((begin_enqueue now
            (producer_run after (finish_retirement ended id (producer_run during p)))).0
          ≡ throw plain_error)
circuit_open id before during after any ended now c n a h =
    let p = end_enqueue id false before in
    let still = retiring_run id during p (failed_retires id before c) n in
    (
      refused_retiring id any (producer_run during p) still,
      refused_backing_off (ended + 1000) now
          (producer_run after (finish_retirement ended id (producer_run during p)))
          (backing_off_run (ended + 1000) after (finish_retirement ended id (producer_run during p))
            (finished_retirement id ended (producer_run during p) still) a)
          h,
    )
