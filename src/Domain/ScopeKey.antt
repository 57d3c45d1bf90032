-- ===== src/Domain/ScopeKey.antt =====
-- src/domain/ids.ts: makeScopeKey and parseScopeKey.
use multi_venue_grid_engine.Base.{
  ℕ, ◌≡◌, refl, Bool, true, false, ◌||◌, List, [], ◌∷◌, ◌++◌, Text, text_is_empty, includes, any,
  Outcome, ok, err, ◌==◌, nat_eq, arith, if◌then◌else◌, inl, inr, Bool-cases, All,
}

pub data ScopeKeyError : Type 0 where
  invalid_scope_part invalid_scope_key : ScopeKeyError

pub record ScopeParts : Type 0 where
  pub account_scope : Text
  pub venue : Text
  pub market : Text
  pub strategy : Text

abbrev slash : ℕ
slash = b'/'

-- `parts.join("/")`
unfoldable pub join : ℕ → List Text → Text
join sep [] = []
join sep (p ∷ []) = p
join sep (p ∷ q ∷ ps) = p ++ (sep ∷ join sep (q ∷ ps))

split_step : Bool → ℕ → List Text → List Text
split_step true c ps = [] ∷ ps
split_step false c [] = (c ∷ []) ∷ []
split_step false c (p ∷ ps) = (c ∷ p) ∷ ps

-- `value.split("/")`
unfoldable pub split : ℕ → Text → List Text
unfolding split_step
split sep [] = [] ∷ []
split sep (c ∷ s) = split_step (c == sep) c (split sep s)

abbrev parts_of : ScopeParts → List Text
parts_of p = p.account_scope ∷ p.venue ∷ p.market ∷ p.strategy ∷ []

unfoldable pub make_scope_key : ScopeParts → Outcome ScopeKeyError Text
make_scope_key p =
    if any (λ part. text_is_empty part || includes part slash) (parts_of p)
    then err invalid_scope_part
    else ok (join slash (parts_of p))

unfoldable pub four_parts : List Text → Outcome ScopeKeyError ScopeParts
four_parts (a ∷ v ∷ m ∷ s ∷ []) =
    if any text_is_empty (a ∷ v ∷ m ∷ s ∷ [])
    then err invalid_scope_key
    else ok (record { account_scope = a; venue = v; market = m; strategy = s })
four_parts _ = err invalid_scope_key

unfoldable pub parse_scope_key : Text → Outcome ScopeKeyError ScopeParts
unfolding four_parts
parse_scope_key key = four_parts (split slash key)

-- Splitting and joining.
split-cons : (sep : ℕ) (s : Text) → (p : Text) × (ps : List Text) × (split sep s ≡ p ∷ ps)
unfolding split
split-cons sep [] = ([], [], refl)
split-cons sep (c ∷ s) = elim (Bool-cases (c == sep)) [
  | inl h ↦ rw h ([], split sep s, refl)
  | inr h ↦ let (p, ps, e) = split-cons sep s in rw (h, e) (c ∷ p, ps, refl)
]

join-split_step :
    (sep c : ℕ) (s : Text) (ps : List Text)
    → split sep s ≡ ps
    → join sep ps ≡ s
    → join sep (split_step (c == sep) c ps) ≡ c ∷ s
unfolding join split_step
join-split_step sep c s [] e h = absurd (ground (arith, split-cons sep s))
join-split_step sep c s (p ∷ []) e h = ground arith
join-split_step sep c s (p ∷ q ∷ ps) e h = ground arith

pub join-split : (sep : ℕ) (s : Text) → join sep (split sep s) ≡ s
unfolding split
join-split sep [] = unfold join in refl
join-split sep (c ∷ s) = join-split_step sep c s (split sep s) refl (join-split sep s)

pub split-append :
    (sep : ℕ) (p t : Text) → includes p sep ≡ false → split sep (p ++ (sep ∷ t)) ≡ p ∷ split sep t
unfolding split
split-append sep [] t h = ground arith
split-append sep (c ∷ p) t h = ground (arith, split-append sep p t)

pub split_whole : (sep : ℕ) (p : Text) → includes p sep ≡ false → split sep p ≡ p ∷ []
unfolding split
split_whole sep [] h = refl
split_whole sep (c ∷ p) h = ground (arith, split_whole sep p)

-- No part of a split contains the separator.
split-excludes : (sep : ℕ) (s : Text) → All (λ p. includes p sep ≡ false) (split sep s)
unfolding split
split-excludes sep [] = (refl, tt)
split-excludes sep (c ∷ s) =
    let (p, ps, e) = split-cons sep s in let rest = split-excludes sep s in ground (arith, e, rest)

split-join_four :
    (a v m s : Text)
    → includes a slash ≡ false
    → includes v slash ≡ false
    → includes m slash ≡ false
    → includes s slash ≡ false
    → split slash (join slash (a ∷ v ∷ m ∷ s ∷ [])) ≡ a ∷ v ∷ m ∷ s ∷ []
unfolding join
split-join_four a v m s ha hv hm hs =
    rw
      (
        split-append slash a _ ha,
        split-append slash v _ hv,
        split-append slash m _ hm,
        split_whole slash s hs,
      )
      refl

-- Reading a key back gives the four parts that it was made from.
pub parse-make :
    (p : ScopeParts) {key : Text} → make_scope_key p ≡ ok key → parse_scope_key key ≡ ok p
unfolding make_scope_key parse_scope_key
parse-make p h = ground (arith, split-join_four p.account_scope p.venue p.market p.strategy)

make-four_parts :
    (xs : List Text) {p : ScopeParts}
    → All (λ part. includes part slash ≡ false) xs
    → four_parts xs ≡ ok p
    → make_scope_key p ≡ ok (join slash xs)
unfolding four_parts make_scope_key
make-four_parts [] n h = cc
make-four_parts (a ∷ []) n h = cc
make-four_parts (a ∷ v ∷ []) n h = cc
make-four_parts (a ∷ v ∷ m ∷ []) n h = cc
make-four_parts (a ∷ v ∷ m ∷ s ∷ []) n h = ground arith
make-four_parts (a ∷ v ∷ m ∷ s ∷ x ∷ xs) n h = cc

-- A key that is accepted is the one made from its four parts, so keys and quadruples of parts
-- correspond one to one.
pub make-parse :
    (key : Text) {p : ScopeParts} → parse_scope_key key ≡ ok p → make_scope_key p ≡ ok key
unfolding parse_scope_key
make-parse key {p} h =
    rw (join-split slash key) at
      (make-four_parts (split slash key) {p = p} (split-excludes slash key) h)
