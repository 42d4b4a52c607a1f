-- ===== src/Directory/Sort.antt =====
-- The sort of `sortOus`: its steps, and which units stay in the list.
use adscope_identity.Prelude.{
  String, ◌==◌, ◌≡◌, refl, List, [], ◌∷◌, has, ◌||◌, arith, All, string_equality, ◌≢◌, ◌⊎◌, inl,
  inr, IsUnique, false, ◌∙◌,
}
use adscope_identity.Types.{OrganizationalUnit}
use adscope_identity.Directory.{Collation, compare_ous, insert_ou, sort_ous, ids}
use Prim.Native.Nat.{Ordering}
use mathlib.Core.List.{Perm}
use mathlib.Core.List.Perm
use text.Mathlib.TextEquality.{eq_iff}

-- Which way a comparison comes out.
pub Ordering-cases : (o : Ordering) → (o ≡ Ordering.gt) ⊎ (o ≢ Ordering.gt)
Ordering-cases Ordering.lt = inr (cc)
Ordering-cases Ordering.eq = inr (cc)
Ordering-cases Ordering.gt = inl refl

module _ (c : Collation) where
  pub insert_ou-gt :
      (ou o : OrganizationalUnit) (os : List OrganizationalUnit)
      → compare_ous c ou o ≡ Ordering.gt
      → insert_ou c ou (o ∷ os) ≡ o ∷ insert_ou c ou os
  unfolding insert_ou
  insert_ou-gt ou o os h = ground arith

  pub insert_ou-le :
      (ou o : OrganizationalUnit) (os : List OrganizationalUnit)
      → compare_ous c ou o ≢ Ordering.gt
      → insert_ou c ou (o ∷ os) ≡ ou ∷ o ∷ os
  unfolding insert_ou
  insert_ou-le ou o os h = ground arith

  insert_ou-perm :
      (ou : OrganizationalUnit) (os : List OrganizationalUnit) → Perm (insert_ou c ou os) (ou ∷ os)
  unfolding insert_ou
  insert_ou-perm ou [] = Perm.refl _
  insert_ou-perm ou (o ∷ os) = elim (Ordering-cases (compare_ous c ou o)) [
    | inl h ↦
        rw (insert_ou-gt ou o os h)
          (Perm.trans (Perm.cons o (insert_ou-perm ou os)) (Perm.swap _ _ _))
    | inr h ↦ rw (insert_ou-le ou o os h) (Perm.refl _)
  ]

  pub sort_ous-perm : (ous : List OrganizationalUnit) → Perm (sort_ous c ous) ous
  unfolding sort_ous
  sort_ous-perm [] = Perm.refl _
  sort_ous-perm (ou ∷ ous) =
      Perm.trans (insert_ou-perm ou (sort_ous c ous)) (Perm.cons ou (sort_ous-perm ous))

  insert_ou-has :
      (x : String) (ou : OrganizationalUnit) (os : List OrganizationalUnit)
      → has x (ids (insert_ou c ou os)) ≡ (ou.id == x || has x (ids os))
  unfolding insert_ou
  insert_ou-has x ou [] = refl
  insert_ou-has x ou (o ∷ os) = elim (Ordering-cases (compare_ous c ou o)) [
    | inl h ↦ rw (insert_ou-gt ou o os h) (ground (arith, insert_ou-has x ou os))
    | inr h ↦ rw (insert_ou-le ou o os h)
  ]

  pub sort_ous-has :
      (x : String) (ous : List OrganizationalUnit) → has x (ids (sort_ous c ous)) ≡ has x (ids ous)
  unfolding sort_ous
  sort_ous-has x [] = refl
  sort_ous-has x (ou ∷ ous) = rw (insert_ou-has x ou (sort_ous c ous), sort_ous-has x ous)

  pub insert_ou-All {ℓ} :
      (P : OrganizationalUnit → Type ℓ) (ou : OrganizationalUnit) (os : List OrganizationalUnit)
      → P ou
      → All P os
      → All P (insert_ou c ou os)
  unfolding insert_ou
  insert_ou-All P ou [] h k = (h, tt)
  insert_ou-All P ou (o ∷ os) h k = elim (Ordering-cases (compare_ous c ou o)) [
    | inl g ↦ rw (insert_ou-gt ou o os g) (k.0, insert_ou-All P ou os h k.1)
    | inr g ↦ rw (insert_ou-le ou o os g) (h, k)
  ]

  pub sort_ous-All {ℓ} :
      (P : OrganizationalUnit → Type ℓ) (ous : List OrganizationalUnit)
      → All P ous
      → All P (sort_ous c ous)
  unfolding sort_ous
  sort_ous-All P [] h = tt
  sort_ous-All P (ou ∷ ous) h = insert_ou-All P ou (sort_ous c ous) h.0 (sort_ous-All P ous h.1)

  insert_ou-IsUnique :
      (ou : OrganizationalUnit) (os : List OrganizationalUnit)
      → has ou.id (ids os) ≡ false
      → IsUnique (ids os)
      → IsUnique (ids (insert_ou c ou os))
  unfolding insert_ou
  insert_ou-IsUnique ou [] h u = (refl, tt)
  insert_ou-IsUnique ou (o ∷ os) h u = elim (Ordering-cases (compare_ous c ou o)) [
    | inl g ↦ rw (insert_ou-gt ou o os g) (
      ground (arith, insert_ou-has o.id ou os, eq_iff ou.id o.id, eq_iff o.id ou.id),
      insert_ou-IsUnique ou os (ground arith) u.1,
    )
    | inr g ↦ rw (insert_ou-le ou o os g) (h, u)
  ]

  pub sort_ous-IsUnique :
      (ous : List OrganizationalUnit) → IsUnique (ids ous) → IsUnique (ids (sort_ous c ous))
  unfolding sort_ous
  sort_ous-IsUnique [] u = tt
  sort_ous-IsUnique (ou ∷ ous) u =
      insert_ou-IsUnique ou (sort_ous c ous) (sort_ous-has ou.id ous ∙ u.0)
        (sort_ous-IsUnique ous u.1)
