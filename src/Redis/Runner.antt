-- ===== src/Redis/Runner.antt =====
-- `runScript` of packages/redis/src/scripts/run.ts: EVALSHA, and EVAL where the server does not know the
-- script. The client is another project's; what Redis documents of the two calls is a record.
use bookipi_technical_test.Prelude.{
  ℕ, ◌≡◌, refl, Bool, true, false, not, ◌&&◌, ◌||◌, ◌++◌, [], ◌∷◌, List, length, ◌==◌, arith,
  if◌then◌else◌, Outcome, ok, throw, Thrown, plain_error,
}
use bookipi_technical_test.Text.{Text, codes}

-- How EVALSHA or EVAL ends: with the script's reply, or with an error and its message.
pub data EvalReply (A : Type 0) : Type 0 where
  value : A → EvalReply A
  failed : (message : Text) (error : Thrown) → EvalReply A

pub record Client (S A : Type 0) : Type 0 where
  pub evalsha : S → EvalReply A × S
  pub eval : S → EvalReply A × S

abbrev pub no_script : Text
no_script = codes "NOSCRIPT"

unfoldable pub is_prefix : Text → Text → Bool
is_prefix [] s = true
is_prefix (c ∷ word) [] = false
is_prefix (c ∷ word) (x ∷ s) = c == x && is_prefix word s

-- The word stands somewhere in the text.
unfoldable pub contains_text : Text → Text → Bool
contains_text word [] = is_prefix word []
contains_text word (c ∷ s) = is_prefix word (c ∷ s) || contains_text word s

-- `isNoScriptError`
abbrev pub is_no_script_error : {A : Type 0} → EvalReply A → Bool
is_no_script_error (value a) = false
is_no_script_error (failed message e) = contains_text no_script message

module _ {S A : Type 0} where
  -- An error of EVAL is thrown on, whatever its message.
  abbrev pub outcome_of : EvalReply A × S → Outcome A × S
  outcome_of (value a, s) = (ok a, s)
  outcome_of (failed message e, s) = (throw e, s)

  abbrev pub or_eval : Client S A → EvalReply A × S → Outcome A × S
  or_eval client (reply, s) =
      if is_no_script_error reply then outcome_of (client.eval s) else outcome_of (reply, s)

  unfoldable pub run_script : Client S A → ℕ → List Text → S → Outcome A × S
  run_script client num_keys keys s =
      if not (length keys == num_keys)
      then (throw plain_error, s)
      else or_eval client (client.evalsha s)

-- What Redis documents: a script runs once and atomically under either call; EVALSHA of a script that is
-- not in the cache has no effect and its error begins with the word NOSCRIPT; EVAL puts it there; a flush of the cache touches no key.
pub record IsServer {S D A : Type 0} (client : Client S A) (known : S → Bool) (keys : S → D)
    (script : D → A × D) : Type 0 where
  pub hit :
      (s : S)
      → known s ≡ true
      → ((client.evalsha s).0 ≡ value (script (keys s)).0)
        × (keys (client.evalsha s).1 ≡ (script (keys s)).1)
        × (known (client.evalsha s).1 ≡ true)
  pub miss :
      (s : S)
      → known s ≡ false
      → (rest : Text) × (e : Thrown) × (client.evalsha s ≡ (failed (no_script ++ rest) e, s))
  pub loads :
      (s : S)
      → ((client.eval s).0 ≡ value (script (keys s)).0)
        × (keys (client.eval s).1 ≡ (script (keys s)).1)
        × (known (client.eval s).1 ≡ true)

is_prefix-append : (word s : Text) → is_prefix word (word ++ s) ≡ true
unfolding is_prefix
is_prefix-append [] s = refl
is_prefix-append (c ∷ word) s = ground (arith, is_prefix-append word s)

contains-is_prefix : (word s : Text) → is_prefix word s ≡ true → contains_text word s ≡ true
unfolding contains_text
contains-is_prefix word [] h = h
contains-is_prefix word (c ∷ s) h = ground (arith, h)

missed : (rest : Text) → contains_text no_script (no_script ++ rest) ≡ true
missed rest = contains-is_prefix no_script (no_script ++ rest) (is_prefix-append no_script rest)

-- With the right number of keys, a call runs the script exactly once and gives its reply, whether the
-- server knew the script or had forgotten it, and the server knows it afterwards.
pub run_script_once :
    {S D A : Type 0} (client : Client S A) (known : S → Bool) (contents : S → D)
    (script : D → A × D) (num_keys : ℕ) (keys : List Text) (s : S)
    → IsServer client known contents script
    → length keys ≡ num_keys
    → let (reply, after) = run_script client num_keys keys s in
      (reply ≡ ok (script (contents s)).0)
      × (contents after ≡ (script (contents s)).1)
      × (known after ≡ true)
unfolding run_script
run_script_once client known contents script num_keys keys s server count = by_cache (known s) refl
  where
    by_cache :
        (b : Bool)
        → known s ≡ b
        → let (reply, after) = run_script client num_keys keys s in
          (reply ≡ ok (script (contents s)).0)
          × (contents after ≡ (script (contents s)).1)
          × (known after ≡ true)
    by_cache true k = ground (arith, count, server.hit s k)
    by_cache false k =
        let (rest, e, at_miss) = server.miss s k in
        ground (arith, count, at_miss, missed rest, server.loads s)
