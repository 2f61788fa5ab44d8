-- ===== src/Worker/Step.antt =====
-- Code that may throw and that leaves its state behind when it does.
use bookipi_technical_test.Prelude.{Bool, true, false, ◌≡◌, refl, arith, Outcome, ok, throw, Thrown}

abbrev pub Step : Type 0 → Type 0 → Type 0
Step S A = S → Outcome A × S

abbrev pub pure : {S A : Type 0} → A → Step S A
pure a s = (ok a, s)

abbrev pub fail : {S A : Type 0} → Thrown → Step S A
fail e s = (throw e, s)

unfoldable pub continue : {S A B : Type 0} → Outcome A × S → (A → Step S B) → Outcome B × S
continue (ok a, s) f = f a s
continue (throw e, s) f = (throw e, s)

infixl 5 ◌>>=◌ ◌>>◌
abbrev pub ◌>>=◌ : {S A B : Type 0} → Step S A → (A → Step S B) → Step S B
(m >>= f) s = continue (m s) f

abbrev pub ◌>>◌ : {S B : Type 0} → Step S (Unit {0}) → Step S B → Step S B
(m >> k) s = continue (m s) (λ _. k)

-- A value that may have been thrown already.
abbrev pub lift : {S A : Type 0} → Outcome A → Step S A
lift o s = (o, s)

-- `if (!b) throw e`
abbrev pub ensure : {S : Type 0} → Bool → Thrown → Step S (Unit {0})
ensure true e s = (ok tt, s)
ensure false e s = (throw e, s)

-- To prove something of a chain that ends well, take its first step, which ended well, and the rest.
pub continue_ok :
    {S A B P : Type 0} {m : Outcome A × S} {f : A → Step S B} {b : B} {s' : S}
    → continue m f ≡ (ok b, s')
    → ((a : A) (s : S) → m ≡ (ok a, s) → f a s ≡ (ok b, s') → P)
    → P
unfolding continue
continue_ok {m = (ok a, s)} h goal = goal a s refl h
continue_ok {m = (throw e, s)} h goal = ground arith

-- A chain whose first step ended well ends as its rest does.
pub continue_by :
    {S A B : Type 0} {m : Outcome A × S} {a : A} {s : S} {x : Outcome B × S} (f : A → Step S B)
    → m ≡ (ok a, s)
    → f a s ≡ x
    → continue m f ≡ x
unfolding continue
continue_by f e h = rw e h

pub continue_of_ok :
    {S A B : Type 0} (a : A) (s : S) (f : A → Step S B) → continue (ok a, s) f ≡ f a s
unfolding continue
continue_of_ok a s f = refl

abbrev pub caught : {S A : Type 0} → Outcome A × S → (Thrown → Step S A) → Outcome A × S
caught (ok a, s) handler = (ok a, s)
caught (throw e, s) handler = handler e s

-- `try { m } catch (e) { handler(e) }`
abbrev pub try_catch : {S A : Type 0} → Step S A → (Thrown → Step S A) → Step S A
try_catch m handler s = caught (m s) handler
