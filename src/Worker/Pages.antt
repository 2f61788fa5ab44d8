-- ===== src/Worker/Pages.antt =====
-- The loop of `scanOrders` and of `scanJobs` in
-- apps/worker/src/reconciliation/reconciliation.service.ts: pages of a fixed size are read from growing
-- offsets until one is short.
use bookipi_technical_test.Prelude.{
  ℕ, zero, suc, ◌+◌, ◌≤◌, ◌≡◌, refl, sym, ap, ◌∙◌, Option, none, some, List, [], ◌∷◌, ◌++◌, arith,
  ltb, length, take, drop, take-append-drop, if◌then◌else◌, Bool-cases, inl, inr,
}
use mathlib.Core.List.{append_assoc}

module _ {ℓ} {A : Type ℓ} where
  -- One round of fuel for each page; `none` is a loop that has not ended.
  unfoldable pub scan_pages : (ℕ → List A) → ℕ → ℕ → ℕ → List A → Option (List A)
  scan_pages page count zero offset rows = none
  scan_pages page count (suc fuel) offset rows =
      let read = page offset in
      let rest = scan_pages page count fuel (offset + count) (rows ++ read) in
      if ltb (length read) count then some (rows ++ read) else rest

  drop_nil : (n : ℕ) → drop {A = A} n [] ≡ []
  drop_nil zero = refl
  drop_nil (suc n) = refl

  drop-drop : (m n : ℕ) (xs : List A) → drop n (drop m xs) ≡ drop (m + n) xs
  drop-drop zero n xs = ap (λ k. drop k xs) (omega arith)
  drop-drop (suc m) n [] = drop_nil n ∙ sym (drop_nil (suc m + n))
  drop-drop (suc m) n (x ∷ xs) =
      let step : suc (m + n) ≡ suc m + n = omega arith in
      drop-drop m n xs ∙ ap (λ k. drop k (x ∷ xs)) step

  length-take_short : (n : ℕ) (xs : List A) → suc (length (take n xs)) ≤ n → take n xs ≡ xs
  length-take_short zero xs h = absurd (omega (arith, h))
  length-take_short (suc n) [] h = refl
  length-take_short (suc n) (x ∷ xs) h = ap (λ r. x ∷ r) (length-take_short n xs (omega (arith, h)))

  length-take_full :
      (n : ℕ) (xs : List A) → n ≤ length (take n xs) → length (drop n xs) + n ≡ length xs
  length-take_full zero xs h = omega arith
  length-take_full (suc n) [] h = absurd (omega (arith, h))
  length-take_full (suc n) (x ∷ xs) h = omega (arith, length-take_full n xs (omega (arith, h)))

  -- One round: the loop ends at a short page, which is all that is left, or goes on behind a full one.
  scan_round :
      (all : List A) (count fuel offset : ℕ) (rows : List A)
      → let left = drop offset all in
        let read = take count left in
        (count ≤ length read
          → scan_pages (λ o. take count (drop o all)) count fuel (offset + count) (rows ++ read)
            ≡ some ((rows ++ read) ++ drop (offset + count) all))
        → scan_pages (λ o. take count (drop o all)) count (suc fuel) offset rows
          ≡ some (rows ++ left)
  unfolding scan_pages
  scan_round all count fuel offset rows more =
      let left = drop offset all in
      let read = take count left in
      elim (Bool-cases (ltb (length read) count)) [
        | inl short ↦
            rw short
              (ap (λ r. some (rows ++ r)) (length-take_short count left (ground (arith, short))))
        | inr full ↦ rw full (
            more (ground (arith, full))
            ∙ ap some (
                append_assoc rows read (drop (offset + count) all)
                ∙ ap (λ r. rows ++ r)
                    (ap (λ r. read ++ r) (sym (drop-drop offset count all))
                      ∙ take-append-drop count left)))
      ]

  left_after :
      (all : List A) (count offset : ℕ)
      → count ≤ length (take count (drop offset all))
      → length (drop (offset + count) all) + count ≡ length (drop offset all)
  left_after all count offset full =
      rw (sym (drop-drop offset count all)) (length-take_full count (drop offset all) full)

  -- The loop reads the whole of a list whose pages it is given, each element once and in order, in one
  -- round more than the list has elements.
  pub scan_pages_lem :
      (all : List A) (count fuel offset : ℕ) (rows : List A)
      → 1 ≤ count
      → length (drop offset all) ≤ fuel
      → scan_pages (λ o. take count (drop o all)) count (suc fuel) offset rows
        ≡ some (rows ++ drop offset all)
  scan_pages_lem all count zero offset rows h enough =
      scan_round all count zero offset rows
        (λ full. absurd (omega (arith, left_after all count offset full, h, enough)))
  scan_pages_lem all count (suc fuel) offset rows h enough =
      scan_round all count (suc fuel) offset rows (λ full.
        scan_pages_lem all count fuel (offset + count) (rows ++ take count (drop offset all)) h
          (omega (arith, left_after all count offset full, h, enough)))
