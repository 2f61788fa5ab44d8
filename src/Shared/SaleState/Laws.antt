-- ===== src/Shared/SaleState/Laws.antt =====
-- When the state is defined, what it means, and when it changes.
use bookipi_technical_test.Prelude.{
  ℕ, ◌≡◌, ◌≢◌, true, none, some, ℤ, pos, arith, ◌+ℤ◌, ◌-ℤ◌, ◌≤ℤ◌, ◌<ℤ◌, Outcome, ok, ◌↔◌, ◌⊎◌, inl,
  inr, int_laws, sym, ◌∙◌, ap, pos_part, neg_part,
}
use bookipi_technical_test.Shared.SaleState.{
  whole, SaleState, upcoming, active, ended, SaleStateInput, derive_sale_state,
  is_within_sale_window, ms_until_next_transition,
}

abbrev pub at_time : ℤ → ℤ → ℤ → ℤ → SaleStateInput
at_time now starts ends stock = record {
  now_ms = whole now;
  starts_at_ms = whole starts;
  ends_at_ms = whole ends;
  stock_remaining = stock;
}

-- A sale is active exactly inside its window with a unit in stock.
active_iff :
    (now starts ends stock : ℤ)
    → (derive_sale_state (at_time now starts ends stock) ≡ ok active) ↔ (
        (is_within_sale_window (whole now) (whole starts) (whole ends) ≡ ok true)
        × (pos 1 ≤ℤ stock))
unfolding derive_sale_state is_within_sale_window
active_iff now starts ends stock = ground arith

-- Where the clock stands: before the window, in it, or after it.
phase :
    (now starts ends : ℤ)
    → starts <ℤ ends
    → (now <ℤ starts) ⊎ ((starts ≤ℤ now) × (now <ℤ ends)) ⊎ (ends ≤ℤ now)
phase now starts ends h = ground arith

-- The state as a function of the three integers, for the lemmas below.
abbrev state_at : ℤ → ℤ → ℤ → ℤ → Outcome SaleState
state_at now starts ends stock = derive_sale_state (at_time now starts ends stock)

module _ (now starts ends stock : ℤ) (h : starts <ℤ ends) where
  early_upcoming : (m : ℤ) → m <ℤ starts → state_at m starts ends stock ≡ ok upcoming
  unfolding derive_sale_state
  early_upcoming m e = ground arith

  open_same :
      (m : ℤ)
      → starts ≤ℤ now
      → now <ℤ ends
      → starts ≤ℤ m
      → m <ℤ ends
      → state_at m starts ends stock ≡ state_at now starts ends stock
  unfolding derive_sale_state
  open_same m a b c d = ground arith

  late_ended : (m : ℤ) → ends ≤ℤ m → state_at m starts ends stock ≡ ok ended
  unfolding derive_sale_state
  late_ended m e = ground arith

  opens : (m : ℤ) → starts ≤ℤ m → state_at m starts ends stock ≢ ok upcoming
  unfolding derive_sale_state
  opens m e = ground arith

  closes : (m : ℤ) → m <ℤ ends → state_at m starts ends stock ≢ ok ended
  unfolding derive_sale_state
  closes m e = ground arith

  next_early :
      now <ℤ starts
      → ms_until_next_transition (at_time now starts ends stock) ≡ ok (some (starts -ℤ now))
  unfolding ms_until_next_transition
  next_early e = ground arith

  next_open :
      starts ≤ℤ now
      → now <ℤ ends
      → ms_until_next_transition (at_time now starts ends stock) ≡ ok (some (ends -ℤ now))
  unfolding ms_until_next_transition
  next_open a b = ground arith

  next_late : ends ≤ℤ now → ms_until_next_transition (at_time now starts ends stock) ≡ ok none
  unfolding ms_until_next_transition
  next_late e = ground arith

next_transition :
    (now starts ends stock : ℤ) (k : ℕ) (d : ℤ)
    → starts <ℤ ends
    → ms_until_next_transition (at_time now starts ends stock) ≡ ok (some d)
    → pos k <ℤ d
    → (derive_sale_state (at_time (now +ℤ pos k) starts ends stock)
        ≡ derive_sale_state (at_time now starts ends stock))
      × (derive_sale_state (at_time (now +ℤ d) starts ends stock)
          ≢ derive_sale_state (at_time now starts ends stock))
next_transition now starts ends stock k d h answer few = elim (phase now starts ends h) [
  | inl early ↦
      let e : starts -ℤ now ≡ d = cc (next_early now starts ends stock h early) in
      (
        upcoming_at (now +ℤ pos k) (omega (int_laws, ap pos_part e, ap neg_part e))
            ∙ sym (upcoming_at now early),
        λ same.
            opens now starts ends stock h (now +ℤ d)
              (omega (int_laws, ap pos_part e, ap neg_part e)) (same ∙ upcoming_at now early),
      )
  | inr (inl (a, b)) ↦
      let e : ends -ℤ now ≡ d = cc (next_open now starts ends stock h a b) in
      (
        open_same now starts ends stock h (now +ℤ pos k) a b
            (omega (int_laws, ap pos_part e, ap neg_part e))
            (omega (int_laws, ap pos_part e, ap neg_part e)),
        λ same.
            closes now starts ends stock h now b
              (sym same ∙ ended_at (now +ℤ d) (omega (int_laws, ap pos_part e, ap neg_part e))),
      )
  | inr (inr late) ↦ absurd (cc (next_late now starts ends stock h late))
]
  where
    upcoming_at : (m : ℤ) → m <ℤ starts → state_at m starts ends stock ≡ ok upcoming
    upcoming_at m = early_upcoming now starts ends stock h m

    ended_at : (m : ℤ) → ends ≤ℤ m → state_at m starts ends stock ≡ ok ended
    ended_at m = late_ended now starts ends stock h m

window_of_answer :
    (now starts ends stock d : ℤ)
    → ms_until_next_transition (at_time now starts ends stock) ≡ ok (some d)
    → starts <ℤ ends
unfolding ms_until_next_transition
window_of_answer now starts ends stock d answer = ground arith

-- An answer of `msUntilNextTransition` is exact: for fewer milliseconds the state stays as it is, and
-- after that many it is another.
pub ms_until_next_transition_exact :
    (now starts ends stock : ℤ) (k : ℕ) (d : ℤ)
    → ms_until_next_transition (at_time now starts ends stock) ≡ ok (some d)
    → pos k <ℤ d
    → (derive_sale_state (at_time (now +ℤ pos k) starts ends stock)
        ≡ derive_sale_state (at_time now starts ends stock))
      × (derive_sale_state (at_time (now +ℤ d) starts ends stock)
          ≢ derive_sale_state (at_time now starts ends stock))
ms_until_next_transition_exact now starts ends stock k d answer =
    next_transition now starts ends stock k d (window_of_answer now starts ends stock d answer)
      answer
