-- ===== src/Base/Throwing.antt =====
-- A call that may throw: its value, or the error.
use mathlib.Core.Path.{◌≡◌, refl}
use mathlib.Core.List.{List, [], ◌∷◌, ◌++◌}
use native.Mathlib.Omega.{arith}
use mathlib.Core.Logic.{◌⊎◌, inl, inr}
use multi_venue_grid_engine.Base.Lists.{All}
use mathlib.Core.Bool.{Bool, true, false}

pub data Outcome {ℓ} (E : Type 0) (A : Type ℓ) : Type ℓ where
  ok : A → Outcome E A
  err : E → Outcome E A

infixl 5 ◌>>=◌ ◌>>◌
abbrev pub ◌>>=◌ {ℓ κ} :
    {E : Type 0} {A : Type ℓ} {B : Type κ} → Outcome E A → (A → Outcome E B) → Outcome E B
ok a >>= f = f a
err e >>= f = err e

abbrev pub ◌>>◌ {ℓ} : {E : Type 0} {B : Type ℓ} → Outcome E (Unit {0}) → Outcome E B → Outcome E B
m >> k = m >>= λ _. k

-- `if (!test) throw e`.
abbrev pub guard : {E : Type 0} → Bool → E → Outcome E (Unit {0})
guard true e = ok tt
guard false e = err e

-- A chain that gives a value gives one at its first call.
pub >>=-eq-ok {ℓ κ} :
    {E : Type 0} {A : Type ℓ} {C : Type κ} (first : Outcome E A) (rest : A → Outcome E C) {c : C}
    → (first >>= rest) ≡ ok c
    → (x : A) × (first ≡ ok x) × (rest x ≡ ok c)
>>=-eq-ok (ok x) rest given = (x, refl, given)
>>=-eq-ok (err why) rest given = cc

pub Outcome-cases {ℓ} :
    {E : Type 0} {A : Type ℓ} (m : Outcome E A) → ((a : A) × (m ≡ ok a)) ⊎ ((e : E) × (m ≡ err e))
Outcome-cases (ok a) = inl (a, refl)
Outcome-cases (err e) = inr (e, refl)

-- `for (const x of xs) state = body(state, x)` with a body that may throw.
unfoldable pub fold_m {ℓ κ} :
    {E : Type 0} {A : Type ℓ} {S : Type κ} → (S → A → Outcome E S) → S → List A → Outcome E S
fold_m body s [] = ok s
fold_m body s (x ∷ xs) = body s x >>= λ t. fold_m body t xs

-- `xs.flatMap(f)` with a function that may throw.
unfoldable pub flat_map_m {ℓ κ} :
    {E : Type 0} {A : Type ℓ} {B : Type κ} → (A → Outcome E (List B)) → List A → Outcome E (List B)
flat_map_m f [] = ok []
flat_map_m f (x ∷ xs) = f x >>= λ ys. flat_map_m f xs >>= λ zs. ok (ys ++ zs)

pub fold_m-append {ℓ κ} :
    {E : Type 0} {A : Type ℓ} {S : Type κ} (body : S → A → Outcome E S) (s : S) (xs ys : List A)
    → fold_m body s (xs ++ ys) ≡ (fold_m body s xs >>= λ t. fold_m body t ys)
unfolding fold_m
fold_m-append body s [] ys = refl
fold_m-append body s (x ∷ xs) ys = elim (Outcome-cases (body s x)) [
  | inl (t, e) ↦ rw (e, ◌>>=◌) (fold_m-append body t xs ys)
  | inr (r, e) ↦ rw (e, ◌>>=◌) refl
]

pub append-nil_inv {ℓ} : {A : Type ℓ} (xs ys : List A) → xs ++ ys ≡ [] → (xs ≡ []) × (ys ≡ [])
append-nil_inv [] ys h = (refl, h)
append-nil_inv (x ∷ xs) ys h = cc

-- A `flatMap` that gives nothing gives nothing on any entry.
pub flat_map_m-nil {ℓ κ} :
    {E : Type 0} {A : Type ℓ} {B : Type κ} (f : A → Outcome E (List B)) (xs : List A)
    → flat_map_m f xs ≡ ok []
    → All (λ x. f x ≡ ok []) xs
unfolding flat_map_m
flat_map_m-nil f [] h = tt
flat_map_m-nil f (x ∷ xs) h =
    let (ys, here, h') = >>=-eq-ok (f x) _ h in
    let (zs, there, e) = >>=-eq-ok (flat_map_m f xs) _ h' in
    let empty = append-nil_inv ys zs (ground arith) in (cc, flat_map_m-nil f xs (cc))

pub ok_injective {ℓ} :
    {E : Type 0} {A : Type ℓ} {a b : A} → ◌≡◌ {A = Outcome E A} (ok a) (ok b) → a ≡ b
ok_injective h = cc
