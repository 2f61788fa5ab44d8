-- ===== src/Api/Producer/Calls.antt =====
-- The calls of `enqueue` that are in flight: those that were let through and have not ended.
use bookipi_technical_test.Prelude.{
  ℕ, suc, ◌+◌, ◌≤◌, ◌<◌, ◌≡◌, refl, Bool, Option, none, some, List, [], ◌∷◌, arith, leb, ◌==◌,
  if◌then◌else◌, Outcome, ok, throw,
}
use bookipi_technical_test.Api.Producer.{
  Producer, ProducerGeneration, ProducerEvent, enqueue_begins, enqueue_ends, retirement_ends,
  close_begins, begin_enqueue, end_enqueue, finish_retirement, close_service, producer_step,
  fresh_producer, in_flight_count,
}

-- The service, with the generation of each call that is in flight.
pub record InFlight : Type 0 where
  pub producer : Producer
  pub calls : List ℕ

unfoldable pub count_of : ℕ → List ℕ → ℕ
count_of id [] = 0
count_of id (c ∷ cs) = let rest = count_of id cs in if c == id then suc rest else rest

unfoldable pub remove_call : ℕ → List ℕ → List ℕ
remove_call id [] = []
remove_call id (c ∷ cs) = let rest = remove_call id cs in if c == id then cs else c ∷ rest

abbrev with_call : Outcome ℕ → List ℕ → List ℕ
with_call (ok id) calls = id ∷ calls
with_call (throw e) calls = calls

-- A call that is let through is in flight until it ends, which only a call in flight does.
unfoldable pub calls_step : ProducerEvent → InFlight → InFlight
calls_step (enqueue_begins now) s = record {
  producer = producer_step (enqueue_begins now) s.producer;
  calls = with_call (begin_enqueue now s.producer).0 s.calls;
}
calls_step (enqueue_ends id succeeded) s =
    if leb 1 (count_of id s.calls)
    then record {
      producer = producer_step (enqueue_ends id succeeded) s.producer;
      calls = remove_call id s.calls;
    }
    else s
calls_step e s = record s { producer = producer_step e s.producer }

unfoldable pub calls_run : List ProducerEvent → InFlight → InFlight
calls_run [] s = s
calls_run (e ∷ es) s = calls_run es (calls_step e s)

abbrev pub no_calls : InFlight
no_calls = record { producer = fresh_producer; calls = [] }

-- The counter of the service's generation is the number of its calls in flight.
abbrev IsCounted : Option ProducerGeneration → ℕ → List ℕ → Type 0
IsCounted none next calls = Unit
IsCounted (some g) next calls = (count_of g.id calls ≡ g.in_flight) × (g.id < next)

record IsExact (s : InFlight) : Type 0 where
  bounded : (id : ℕ) → count_of id s.calls ≤ 64
  known : (id : ℕ) → s.producer.next_id ≤ id → count_of id s.calls ≡ 0
  counted : IsCounted s.producer.generation s.producer.next_id s.calls

count_of-remove_call :
    (id other : ℕ) (cs : List ℕ)
    → 1 ≤ count_of id cs
    → count_of other cs ≡ count_of other (remove_call id cs) + (if id == other then 1 else 0)
unfolding count_of remove_call
count_of-remove_call id other [] h = absurd (ground (arith, h))
count_of-remove_call id other (c ∷ cs) h = ground (arith, h, count_of-remove_call id other cs)

begun_lem : (now : ℕ) (s : InFlight) → IsExact s → IsExact (calls_step (enqueue_begins now) s)
unfolding calls_step producer_step begin_enqueue count_of
begun_lem now s x = record {
  bounded = λ id. ground (arith, x.bounded id, x.known id, x.counted);
  known = λ id h. ground (arith, h, x.known id, x.counted);
  counted = ground (arith, x.counted, x.known s.producer.next_id);
}

ended_lem :
    (id : ℕ) (succeeded : Bool) (s : InFlight)
    → IsExact s
    → IsExact (calls_step (enqueue_ends id succeeded) s)
unfolding calls_step producer_step end_enqueue
ended_lem id succeeded s x = record {
  bounded = λ other. ground (arith, x.bounded other, count_of-remove_call id other s.calls);
  known = λ other h. ground (arith, h, x.known other, count_of-remove_call id other s.calls);
  counted = ground (
    arith,
    x.counted,
    count_of-remove_call id (elim s.producer.generation [ none ↦ 0 | some g ↦ g.id ]) s.calls,
  );
}

calls_step-IsExact : (e : ProducerEvent) (s : InFlight) → IsExact s → IsExact (calls_step e s)
unfolding calls_step producer_step finish_retirement close_service
calls_step-IsExact (enqueue_begins now) s x = begun_lem now s x
calls_step-IsExact (enqueue_ends id succeeded) s x = ended_lem id succeeded s x
calls_step-IsExact (retirement_ends now id) s x = record {
  bounded = x.bounded;
  known = λ other h. ground (arith, h, x.known other);
  counted = ground (arith, x.counted);
}
calls_step-IsExact close_begins s x = record {
  bounded = x.bounded;
  known = λ other h. ground (arith, h, x.known other);
  counted = ground (arith, x.counted);
}

calls_run-IsExact : (es : List ProducerEvent) (s : InFlight) → IsExact s → IsExact (calls_run es s)
unfolding calls_run
calls_run-IsExact [] s x = x
calls_run-IsExact (e ∷ es) s x = calls_run-IsExact es (calls_step e s) (calls_step-IsExact e s x)

-- The calls in flight of the service's generation, if it has one.
abbrev pub current_calls : InFlight → ℕ
current_calls s = elim s.producer.generation [ none ↦ 0 | some g ↦ count_of g.id s.calls ]

-- However calls begin, end, fail and overlap, and whatever generations come and go, no generation of the
-- service's connections ever has more than 64 calls in flight, which are those that `enqueue` let through
-- and that have not ended; and the count that the service shows is that of its own generation.
pub in_flight_bounded :
    (es : List ProducerEvent) (id : ℕ)
    → let s = calls_run es no_calls in
      (count_of id s.calls ≤ 64) × (in_flight_count s.producer ≡ current_calls s)
unfolding count_of
in_flight_bounded es id =
    let exact =
      calls_run-IsExact es no_calls
        (record { bounded = λ _. omega arith; known = λ _ _. refl; counted = tt }) in
    (exact.bounded id, ground (arith, exact.counted))
