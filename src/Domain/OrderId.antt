-- ===== src/Domain/OrderId.antt =====
-- src/domain/ids.ts: intent and client order identifiers.
use multi_venue_grid_engine.Base.{
  ℕ, zero, suc, ◌≡◌, ◌≤◌, refl, Bool, true, false, ◌&&◌, ◌||◌, Option, none, some, [], ◌∷◌, ◌++◌,
  Text, text, length, every, ◌==◌, nat_eq, leb, arith,
}
use multi_venue_grid_engine.Domain.ScopeKey.{join}

abbrev level_or_none : Option Text → Text
level_or_none none = text "none"
level_or_none (some l) = l

pub record IntentIdInput : Type 0 where
  pub experiment_id : Text
  pub run_id : Text
  pub scope_key : Text
  pub anchor_epoch : Text
  pub logical_level_id : Option Text
  pub purpose : Text
  pub sequence : Text

unfoldable pub make_intent_id : IntentIdInput → Text
make_intent_id i = join b':' (
    text "int"
    ∷ i.experiment_id
    ∷ i.run_id
    ∷ i.scope_key
    ∷ i.anchor_epoch
    ∷ level_or_none i.logical_level_id
    ∷ i.purpose
    ∷ i.sequence
    ∷ [])

pub record ClientOrderIdInput : Type 0 where
  pub scope_key : Text
  pub anchor_epoch : Text
  pub logical_level_id : Option Text
  pub purpose : Text
  pub intent_id : Text

-- `digest.slice(0, n)`
unfoldable pub slice_front : ℕ → Text → Text
slice_front zero s = []
slice_front (suc n) [] = []
slice_front (suc n) (c ∷ s) = c ∷ slice_front n s

-- `sha256Hex` is node:crypto's hash as a parameter.
unfoldable pub make_client_order_id : (Text → Text) → ClientOrderIdInput → Text
unfolding slice_front
make_client_order_id sha256_hex i =
    text "mv1"
    ++ slice_front 20 (
        sha256_hex (
          join b'|' (
            i.scope_key
            ∷ i.anchor_epoch
            ∷ level_or_none i.logical_level_id
            ∷ i.purpose
            ∷ i.intent_id
            ∷ [])))

-- `[0-9a-f]`
abbrev pub is_hex_digit : ℕ → Bool
is_hex_digit c = (leb b'0' c && leb c b'9') || (leb b'a' c && leb c b'f')

-- `/^mv1[0-9a-f]{20}$/`
unfoldable pub is_engine_client_order_id : Text → Bool
is_engine_client_order_id (m ∷ v ∷ one ∷ rest) =
    m == b'm' && v == b'v' && one == b'1' && length rest == 20 && every is_hex_digit rest
is_engine_client_order_id _ = false

slice_front_lem :
    (n : ℕ) (s : Text)
    → n ≤ length s
    → every is_hex_digit s ≡ true
    → (length (slice_front n s) ≡ n) × (every is_hex_digit (slice_front n s) ≡ true)
unfolding slice_front
slice_front_lem zero s h a = (refl, refl)
slice_front_lem (suc n) [] h a = elim h [ ]
slice_front_lem (suc n) (c ∷ s) h a = ground (arith, slice_front_lem n s)

-- Every client order ID that the engine makes has the engine's format, provided that the hash
-- function returns at least twenty characters, all of them lower-case hexadecimal digits.
pub make_client_order_id-is_engine :
    (sha256_hex : Text → Text)
    → ((s : Text) → (20 ≤ length (sha256_hex s)) × (every is_hex_digit (sha256_hex s) ≡ true))
    → (i : ClientOrderIdInput)
    → is_engine_client_order_id (make_client_order_id sha256_hex i) ≡ true
unfolding is_engine_client_order_id make_client_order_id
make_client_order_id-is_engine sha h i =
    let digest = sha (
      join b'|' (
        i.scope_key
        ∷ i.anchor_epoch
        ∷ level_or_none i.logical_level_id
        ∷ i.purpose
        ∷ i.intent_id
        ∷ [])) in
    let fits = slice_front_lem 20 digest (h _).0 (h _).1 in rw (fits.0, fits.1) refl
