-- ===== src/Api/Producer.antt =====
-- The producer of the orders queue, apps/api/src/queue/orders-queue.service.ts, as a state machine: each
-- step is what the service does between two waits. What BullMQ and Redis reply, and when, is in the
-- events; listeners, timers and sockets are left out.
use bookipi_technical_test.Prelude.{
  ℕ, suc, ◌+◌, ◌-◌, ◌≤◌, ◌<◌, ◌≡◌, ◌⊎◌, refl, Bool, true, false, not, ◌&&◌, ◌||◌, Option, none,
  some, List, [], ◌∷◌, arith, leb, ltb, ◌==◌, if◌then◌else◌, Outcome, ok, throw, plain_error,
}
pub mod Circuit
pub mod Calls

abbrev pub max_producer_in_flight : ℕ
max_producer_in_flight = 64

abbrev pub producer_reopen_backoff_ms : ℕ
producer_reopen_backoff_ms = 1000

-- `ProducerGeneration`; `id` is the identity of the object.
pub record ProducerGeneration : Type 0 where
  pub id : ℕ
  pub in_flight : ℕ
  pub retiring : Bool

-- The fields of `OrdersQueueService`, with the identity of the next generation.
pub record Producer : Type 0 where
  pub generation : Option ProducerGeneration
  pub reopen_at_ms : ℕ
  pub closing : Bool
  pub next_id : ℕ

abbrev new_generation : ℕ → ProducerGeneration
new_generation id = record { id = id; in_flight = 0; retiring = false }

-- `this.generation ??= this.createGeneration()`
abbrev current : Producer → ProducerGeneration
current p = elim p.generation [ none ↦ new_generation p.next_id | some g ↦ g ]

abbrev with_current : Producer → Producer
with_current p = elim p.generation [
  | none ↦ record p { generation = some (new_generation p.next_id); next_id = p.next_id + 1 }
  | some g ↦ p
]

abbrev admit : Producer → ProducerGeneration → Producer
admit p g = record p { generation = some (record g { in_flight = g.in_flight + 1 }) }

-- `enqueue`, up to its first wait, where a new generation is made without an error: the generation that the call goes on with, or the refusal.
unfoldable pub begin_enqueue : ℕ → Producer → Outcome ℕ × Producer
begin_enqueue now p =
    if p.closing
    then (throw plain_error, p)
    else if ltb now p.reopen_at_ms
    then (throw plain_error, p)
    else if (current p).retiring
    then (throw plain_error, with_current p)
    else if leb max_producer_in_flight (current p).in_flight
    then (throw plain_error, with_current p)
    else (ok (current p).id, admit (with_current p) (current p))

-- On the generation with this identity, if it is the service's own still.
abbrev on_generation : ℕ → (ProducerGeneration → ProducerGeneration) → Producer → Producer
on_generation id f p = elim p.generation [
  | none ↦ p
  | some g ↦ if g.id == id then record p { generation = some (f g) } else p
]

abbrev retired : ProducerGeneration → ProducerGeneration
retired g = record g { retiring = true }

abbrev released : ProducerGeneration → ProducerGeneration
released g = record g { in_flight = g.in_flight - 1 }

-- The rest of `enqueue`: a call that fails or runs out of time retires its generation, and each call is
-- counted off in the end.
unfoldable pub end_enqueue : ℕ → Bool → Producer → Producer
end_enqueue id succeeded p =
    on_generation id released (if succeeded then p else on_generation id retired p)

-- `finishRetirement`, once all it waits for has ended, on a generation that is being retired.
unfoldable pub finish_retirement : ℕ → ℕ → Producer → Producer
finish_retirement now id p = elim p.generation [
  | none ↦ p
  | some g ↦
      if (g.id == id) && g.retiring
      then record p { generation = none; reopen_at_ms = now + producer_reopen_backoff_ms }
      else p
]

-- `closeService`
unfoldable pub close_service : Producer → Producer
close_service p = elim p.generation [
  | none ↦ record p { closing = true }
  | some g ↦ record p { closing = true; generation = some (retired g) }
]

pub data ProducerEvent : Type 0 where
  enqueue_begins : ℕ → ProducerEvent
  enqueue_ends : ℕ → Bool → ProducerEvent
  retirement_ends : ℕ → ℕ → ProducerEvent
  close_begins : ProducerEvent

unfoldable pub producer_step : ProducerEvent → Producer → Producer
producer_step (enqueue_begins now) p = (begin_enqueue now p).1
producer_step (enqueue_ends id succeeded) p = end_enqueue id succeeded p
producer_step (retirement_ends now id) p = finish_retirement now id p
producer_step close_begins p = close_service p

unfoldable pub producer_run : List ProducerEvent → Producer → Producer
producer_run [] p = p
producer_run (e ∷ es) p = producer_run es (producer_step e p)

abbrev pub fresh_producer : Producer
fresh_producer = record { generation = none; reopen_at_ms = 0; closing = false; next_id = 0 }

abbrev pub in_flight_count : Producer → ℕ
in_flight_count p = elim p.generation [ none ↦ 0 | some g ↦ g.in_flight ]
