-- ===== src/Shared/Keys.antt =====
-- The Redis keys of a sale (packages/shared/src/keys.ts).
use bookipi_technical_test.Prelude.{
  ℕ, ◌≡◌, refl, Bool, true, false, ◌&&◌, ◌||◌, Option, none, some, [], ◌∷◌, ◌++◌, arith, leb, ◌==◌,
  length, if◌then◌else◌, Outcome, ok, throw, type_error, guard, ◌>>=◌, ◌>>◌, Bool-cases, inl, inr,
  ap, sym, ◌∙◌,
}
use mathlib.Core.List.{append_assoc}
use bookipi_technical_test.Text.{
  Text, codes, all_codes, contains_code, contains_code_of_all, split_at, split_at-append,
}
use bookipi_technical_test.Shared.Pattern.{is_lower, is_decimal}

abbrev is_head : ℕ → Bool
is_head c = is_lower c || is_decimal c

-- `[a-z0-9._-]`
abbrev is_sale_id_code : ℕ → Bool
is_sale_id_code c = is_lower c || (is_decimal c || (c == b'.' || (c == b'_' || c == b'-')))

-- `SALE_ID_PATTERN.test(s)`
unfoldable pub sale_id_pattern : Text → Bool
sale_id_pattern [] = false
sale_id_pattern (c ∷ s) = is_head c && (all_codes is_sale_id_code s && leb (length s) 63)

unfoldable pub assert_sale_id : Text → Outcome (Unit {0})
assert_sale_id s = guard (sale_id_pattern s) type_error

-- `{id}`, the hash tag.
unfoldable pub sale_hash_tag : Text → Outcome Text
unfolding assert_sale_id
sale_hash_tag s = do assert_sale_id s; ok (b'{' ∷ (s ++ (b'}' ∷ [])))

-- The kinds of key, each with its builder's last part.
pub data KeyKind : Type 0 where
  config stock buyers metrics reservations : KeyKind

abbrev pub suffix : KeyKind → Text
suffix config = codes "config"
suffix stock = codes "stock"
suffix buyers = codes "buyers"
suffix metrics = codes "metrics"
suffix reservations = codes "reservations"

-- `saleConfigKey`, `saleStockKey`, `saleBuyersKey`, `saleMetricsKey` and `saleReservationsKey`.
unfoldable pub sale_key : KeyKind → Text → Outcome Text
unfolding sale_hash_tag assert_sale_id
sale_key kind s = do
  assert_sale_id s
  tag ← sale_hash_tag s
  ok (codes "sale:" ++ (tag ++ (b':' ∷ suffix kind)))

pub record SaleKeys : Type 0 where
  pub config_key : Text
  pub stock_key : Text
  pub buyers_key : Text
  pub metrics_key : Text
  pub reservations_key : Text

unfoldable pub sale_keys : Text → Outcome SaleKeys
unfolding sale_key
sale_keys s = do
  assert_sale_id s
  c ← sale_key config s
  k ← sale_key stock s
  b ← sale_key buyers s
  m ← sale_key metrics s
  r ← sale_key reservations s
  ok (record {
    config_key = c;
    stock_key = k;
    buyers_key = b;
    metrics_key = m;
    reservations_key = r;
  })

-- A valid sale id holds no brace, so its hash tag is not split.
no_brace : (s : Text) → sale_id_pattern s ≡ true → contains_code b'}' s ≡ false
unfolding sale_id_pattern contains_code
no_brace [] h = cc
no_brace (c ∷ s) h = ground (arith, contains_code_of_all b'}' is_sale_id_code s refl)

-- The text in front of the closing brace.
abbrev tagged : Text → Text
tagged s = codes "sale:{" ++ s

tagged_no_brace : (s : Text) → sale_id_pattern s ≡ true → contains_code b'}' (tagged s) ≡ false
unfolding contains_code
tagged_no_brace s h = no_brace s h

sale_key_valid :
    (kind : KeyKind) (s : Text)
    → sale_id_pattern s ≡ true
    → sale_key kind s ≡ ok (tagged s ++ (b'}' ∷ (b':' ∷ suffix kind)))
unfolding sale_key
sale_key_valid kind s h = rw h (simp append_assoc)

sale_key_bad :
    (kind : KeyKind) (s : Text) → sale_id_pattern s ≡ false → sale_key kind s ≡ throw type_error
unfolding sale_key
sale_key_bad kind s h = rw h

sale_key_form :
    (kind : KeyKind) (s : Text) {key : Text}
    → sale_key kind s ≡ ok key
    → (sale_id_pattern s ≡ true) × (split_at b'}' key ≡ some (tagged s, b':' ∷ suffix kind))
sale_key_form kind s {key} h = elim (Bool-cases (sale_id_pattern s)) [
  | inl valid ↦
      let e : tagged s ++ (b'}' ∷ (b':' ∷ suffix kind)) ≡ key = cc (sale_key_valid kind s valid) in
      (
        valid,
        rw (← e) (split_at-append b'}' (tagged s) (b':' ∷ suffix kind) (tagged_no_brace s valid)),
      )
  | inr bad ↦ absurd (cc (sale_key_bad kind s bad))
]

-- The kind that a key's last part names.
abbrev kind_of : Text → KeyKind
kind_of [] = config
kind_of (c ∷ s) =
    if c == b'c'
    then config
    else if c == b's'
    then stock
    else if c == b'b'
    then buyers
    else if c == b'm'
    then metrics
    else reservations

kind_of-suffix : (k : KeyKind) → kind_of (suffix k) ≡ k
kind_of-suffix config = refl
kind_of-suffix stock = refl
kind_of-suffix buyers = refl
kind_of-suffix metrics = refl
kind_of-suffix reservations = refl

-- What follows the first six characters, `sale:{`.
abbrev untagged : Text → Text
untagged (a ∷ b ∷ c ∷ d ∷ e ∷ f ∷ s) = s
untagged s = s

-- What the colon and the kind are read from.
abbrev rest_of : Option (Text × Text) → Text × Text
rest_of none = ([], [])
rest_of (some p) = p

abbrev after_colon : Text → Text
after_colon [] = []
after_colon (c ∷ s) = s

-- Two keys are the same only if they are the same kind of key of the same sale: the keys of sales
-- never collide.
pub sale_key_injective :
    (k k' : KeyKind) (s s' : Text) {key key' : Text}
    → sale_key k s ≡ ok key
    → sale_key k' s' ≡ ok key'
    → key ≡ key'
    → (s ≡ s') × (k ≡ k')
sale_key_injective k k' s s' h h' e = (ap (λ p. untagged (rest_of p).0) same, kinds)
  where
    same :
        ◌≡◌ {A = Option (Text × Text)}
          (some (tagged s, b':' ∷ suffix k))
          (some (tagged s', b':' ∷ suffix k'))
    same = sym (sale_key_form k s h).1 ∙ (ap (split_at b'}') e ∙ (sale_key_form k' s' h').1)

    kinds : k ≡ k'
    kinds =
        sym (kind_of-suffix k)
        ∙ (ap (λ p. kind_of (after_colon (rest_of p).1)) same ∙ kind_of-suffix k')
