-- ===== src/Prelude/Lists.antt =====
-- Lists: length over the native numbers, and quantified predicates by recursion.
use Prim.Native.Nat.{ℕ, zero, suc, ◌+◌}
use Prim.Native.String.{String}
use mathlib.Core.Path.{◌≡◌}
use mathlib.Core.Logic.{◌⊎◌, ◌↔◌}
use mathlib.Core.Bool.{Bool, true, false, ◌||◌}
use mathlib.Core.Option.{Option, none, some}
use mathlib.Core.List.{List, [], ◌∷◌, ◌++◌, map}
use native.Mathlib.Omega.{arith}
use text.Mathlib.Text.{◌==◌}
use text.Mathlib.TextEquality.{eq_iff}
use policy_agent.Prelude.Tests.{or_iff}

module _ {ℓ} {A : Type ℓ} where
  abbrev pub length : List A → ℕ
  length [] = 0
  length (x ∷ xs) = suc (length xs)

  abbrev pub is_empty : List A → Bool
  is_empty [] = true
  is_empty (x ∷ xs) = false

  abbrev pub get_elem? : List A → ℕ → Option A
  get_elem? [] i = none
  get_elem? (x ∷ xs) zero = some x
  get_elem? (x ∷ xs) (suc i) = get_elem? xs i

  pub length-append : (xs ys : List A) → length (xs ++ ys) ≡ length xs + length ys
  length-append [] ys = omega arith
  length-append (x ∷ xs) ys = omega (arith, length-append xs ys)

  -- Some element has the property.
  abbrev pub Any : (A → Type 0) → List A → Type 0
  Any P [] = ⊥
  Any P (x ∷ xs) = P x ⊎ Any P xs

  abbrev pub All : (A → Type 0) → List A → Type 0
  All P [] = Unit
  All P (x ∷ xs) = P x × All P xs

  pub All-append : (P : A → Type 0) (xs ys : List A) → All P xs → All P ys → All P (xs ++ ys)
  All-append P [] ys hx hy = hy
  All-append P (x ∷ xs) ys hx hy = (hx.0, All-append P xs ys hx.1 hy)

  -- A loop that stops at the first element that passes a test.
  unfoldable pub exists_where : (A → Bool) → List A → Bool
  exists_where f [] = false
  exists_where f (x ∷ xs) = f x || exists_where f xs

  pub exists_where_iff :
      {P : A → Type 0} (f : A → Bool) (xs : List A)
      → ((x : A) → (f x ≡ true) ↔ P x)
      → (exists_where f xs ≡ true) ↔ Any P xs
  unfolding exists_where
  exists_where_iff f [] h = (λ e. absurd (ground arith), λ a. absurd a)
  exists_where_iff f (x ∷ xs) h = or_iff (f x) (exists_where f xs) (h x) (exists_where_iff f xs h)

-- `for _, s := range xs { if s == x { ... } }`.
unfoldable pub contains : String → List String → Bool
contains x [] = false
contains x (y ∷ ys) = x == y || contains x ys

abbrev pub Member : String → List String → Type 0
Member x = Any (λ y. x ≡ y)

pub contains_iff : (x : String) (ys : List String) → (contains x ys ≡ true) ↔ Member x ys
unfolding contains
contains_iff x [] = (λ e. absurd (ground arith), λ a. absurd a)
contains_iff x (y ∷ ys) = or_iff (x == y) (contains x ys) (eq_iff x y) (contains_iff x ys)

pub length-map {ℓ κ} :
    {A : Type ℓ} {B : Type κ} (f : A → B) (xs : List A) → length (map f xs) ≡ length xs
length-map f [] = omega arith
length-map f (x ∷ xs) = omega (arith, length-map f xs)
