-- ===== src/Prelude/Equality.antt =====
-- Equality tests as an interface: `===` on strings and on `string | null`.
use Prim.Native.String.{String}
use mathlib.Core.Path.{◌≡◌, refl}
use mathlib.Core.Logic.{◌↔◌, ◌≢◌}
use mathlib.Core.Bool.{Bool, true, false, ◌||◌}
use mathlib.Core.List.{List, [], ◌∷◌, ◌++◌}
use mathlib.Core.Option.{Option, none, some}
use native.Mathlib.Omega.{arith}
use package.adscope_identity.Prelude.Lists.{All, any}
use text.Mathlib.Text.{◌==◌ as str_eq}
use text.Mathlib.TextEquality.{eq_iff}

-- A test of equality that decides it.
pub record Equality {ℓ} (A : Type ℓ) : Type ℓ where
  pub equal : A → A → Bool
  pub decides : (x y : A) → (equal x y ≡ true) ↔ (x ≡ y)

-- `x === y`
abbrev pub ◌==◌ {ℓ} : {A : Type ℓ} ⦃test : Equality A⦄ → A → A → Bool
◌==◌ ⦃test⦄ x y = test.equal x y

infix 50 ◌==◌
abbrev pub same_option {ℓ} : {A : Type ℓ} ⦃e : Equality A⦄ → Option A → Option A → Bool
same_option none none = true
same_option (some a) (some b) = a == b
same_option _ _ = false

pub same_option_iff {ℓ} :
    {A : Type ℓ} ⦃e : Equality A⦄ (a b : Option A) → (same_option a b ≡ true) ↔ (a ≡ b)
same_option_iff none none = ground arith
same_option_iff none (some b) = ground arith
same_option_iff (some a) none = ground arith
same_option_iff ⦃e⦄ (some a) (some b) = ground (arith, e.decides a b)

instance abbrev pub option_equality {ℓ} : {A : Type ℓ} ⦃e : Equality A⦄ → Equality (Option A)
option_equality = record { equal = same_option; decides = same_option_iff }

instance abbrev pub string_equality : Equality String
string_equality = record { equal = str_eq; decides = eq_iff }

module _ {ℓ} {A : Type ℓ} ⦃e : Equality A⦄ where
  pub beq_self : (a : A) → (a == a) ≡ true
  beq_self a = (e.decides a a).1 refl

  -- `set.has(a)` for a `Set` kept as the list of its elements in insertion order.
  abbrev pub has : A → List A → Bool
  has a [] = false
  has a (x ∷ xs) = x == a || has a xs

  -- No element stands twice.
  abbrev pub IsUnique : List A → Type 0
  IsUnique [] = Unit
  IsUnique (x ∷ xs) = (has x xs ≡ false) × IsUnique xs

  pub has-append : (a : A) (xs ys : List A) → has a (xs ++ ys) ≡ (has a xs || has a ys)
  has-append a [] ys = refl
  has-append a (x ∷ xs) ys = ground (arith, has-append a xs ys)

  -- A new element at the end of a list keeps its elements distinct.
  pub IsUnique-concat :
      (a : A) (xs : List A) → IsUnique xs → has a xs ≡ false → IsUnique (xs ++ a ∷ [])
  IsUnique-concat a [] u h = (refl, tt)
  IsUnique-concat a (x ∷ xs) u h = (
    ground (arith, has-append x xs (a ∷ []), e.decides x a, e.decides a x),
    IsUnique-concat a xs u.1 (ground arith),
  )

  has-false_of_apart :
      (a : A) (xs ys : List A) → All (λ y. has y (a ∷ xs) ≡ false) ys → has a ys ≡ false
  has-false_of_apart a xs [] h = refl
  has-false_of_apart a xs (y ∷ ys) h =
      ground (arith, has-false_of_apart a xs ys h.1, e.decides y a, e.decides a y)

  apart-tail :
      (a : A) (xs ys : List A)
      → All (λ y. has y (a ∷ xs) ≡ false) ys
      → All (λ y. has y xs ≡ false) ys
  apart-tail a xs [] h = tt
  apart-tail a xs (y ∷ ys) h = (ground arith, apart-tail a xs ys h.1)

  -- Two lists of distinct elements that share none, one after the other.
  pub IsUnique-append :
      (xs ys : List A)
      → IsUnique xs
      → IsUnique ys
      → All (λ y. has y xs ≡ false) ys
      → IsUnique (xs ++ ys)
  IsUnique-append [] ys u v h = v
  IsUnique-append (x ∷ xs) ys u v h = (
    ground (arith, has-append x xs ys, has-false_of_apart x xs ys h),
    IsUnique-append xs ys u.1 v (apart-tail x xs ys h),
  )

-- What no element of a list has, if the search for it fails.
pub any-All {ℓ κ} :
    {A : Type ℓ} {B : Type κ} ⦃e : Equality B⦄ (f : A → B) (b : B) (xs : List A)
    → any (λ x. f x == b) xs ≡ false
    → All (λ x. f x ≢ b) xs
any-All f b [] h = tt
any-All ⦃e⦄ f b (x ∷ xs) h =
    (λ q. absurd (ground (arith, (e.decides (f x) b).1 q)), any-All f b xs (ground arith))
