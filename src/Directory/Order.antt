-- ===== src/Directory/Order.antt =====
-- The order of the list that `sortOus` gives.
use adscope_identity.Prelude.{String, ◌≡◌, ◌≢◌, refl, ◌⊎◌, List, [], ◌∷◌, All, arith, inl, inr}
use Prim.Native.Nat.{Ordering}
use adscope_identity.Types.{OrganizationalUnit}
use adscope_identity.Directory.{Collation, compare_ous, insert_ou, sort_ous}
use adscope_identity.Directory.Sort.{
  insert_ou-gt, insert_ou-le, insert_ou-All, Ordering-cases, sort_ous-perm,
}
use mathlib.Core.List.{Perm}

-- What ECMA-402 says of the comparison of a collator: it is consistent, a total preorder.
pub record IsConsistentOrder (f : String → String → Ordering) : Type 0 where
  pub gt-lt : (a b : String) → f a b ≡ Ordering.gt → f b a ≡ Ordering.lt
  pub lt-gt : (a b : String) → f a b ≡ Ordering.lt → f b a ≡ Ordering.gt
  pub trans : (a b d : String) → f a b ≢ Ordering.gt → f b d ≢ Ordering.gt → f a d ≢ Ordering.gt

pub record IsCollation (c : Collation) : Type 0 where
  pub chinese : IsConsistentOrder c.by_chinese
  pub default : IsConsistentOrder c.by_default

Ordering-three : (o : Ordering) → (o ≡ Ordering.lt) ⊎ ((o ≡ Ordering.eq) ⊎ (o ≡ Ordering.gt))
Ordering-three Ordering.lt = inl refl
Ordering-three Ordering.eq = inr (inl refl)
Ordering-three Ordering.gt = inr (inr refl)

module _ (c : Collation) where
  -- A unit may stand before another: its name comes before, or the names are equal and its identifier
  -- does not come after.
  abbrev pub MayPrecede : OrganizationalUnit → OrganizationalUnit → Type 0
  MayPrecede a b =
      (c.by_chinese a.name b.name ≡ Ordering.lt)
      ⊎ ((c.by_chinese a.name b.name ≡ Ordering.eq) × (c.by_default a.id b.id ≢ Ordering.gt))

  MayPrecede-of : (a b : OrganizationalUnit) → compare_ous c a b ≢ Ordering.gt → MayPrecede a b
  unfolding compare_ous
  MayPrecede-of a b h = elim (Ordering-three (c.by_chinese a.name b.name)) [
    | inl e ↦ inl e
    | inr (inl e) ↦ inr (e, ground arith)
    | inr (inr e) ↦ absurd (ground arith)
  ]

  MayPrecede-not_after :
      (a b : OrganizationalUnit) → MayPrecede a b → compare_ous c a b ≢ Ordering.gt
  unfolding compare_ous
  MayPrecede-not_after a b (inl e) = ground arith
  MayPrecede-not_after a b (inr (e, h)) = ground arith

  -- Every unit may stand before all that follow it.
  abbrev pub IsSorted : List OrganizationalUnit → Type 0
  IsSorted [] = Unit
  IsSorted (ou ∷ ous) = All (MayPrecede ou) ous × IsSorted ous

  module _ (h : IsCollation c) where
    compare_ous-total :
        (a b : OrganizationalUnit)
        → compare_ous c a b ≡ Ordering.gt
        → compare_ous c b a ≢ Ordering.gt
    unfolding compare_ous
    compare_ous-total a b e = ground (
      arith,
      h.chinese.gt-lt a.name b.name,
      h.chinese.gt-lt b.name a.name,
      h.chinese.lt-gt a.name b.name,
      h.chinese.lt-gt b.name a.name,
      h.default.gt-lt a.id b.id,
      h.default.gt-lt b.id a.id,
    )

    compare_ous_trans :
        (a b d : OrganizationalUnit)
        → compare_ous c a b ≢ Ordering.gt
        → compare_ous c b d ≢ Ordering.gt
        → compare_ous c a d ≢ Ordering.gt
    unfolding compare_ous
    compare_ous_trans a b d p q = ground (
      arith,
      h.chinese.trans a.name b.name d.name,
      h.chinese.trans d.name a.name b.name,
      h.chinese.trans b.name d.name a.name,
      h.chinese.gt-lt a.name d.name,
      h.chinese.lt-gt a.name d.name,
      h.chinese.gt-lt a.name b.name,
      h.chinese.lt-gt a.name b.name,
      h.chinese.gt-lt b.name d.name,
      h.chinese.lt-gt b.name d.name,
      h.chinese.gt-lt d.name a.name,
      h.chinese.lt-gt d.name a.name,
      h.chinese.gt-lt b.name a.name,
      h.chinese.lt-gt b.name a.name,
      h.chinese.gt-lt d.name b.name,
      h.chinese.lt-gt d.name b.name,
      h.default.trans a.id b.id d.id,
    )

    MayPrecede-trans :
        (a b d : OrganizationalUnit) → MayPrecede a b → MayPrecede b d → MayPrecede a d
    MayPrecede-trans a b d p q =
        MayPrecede-of a d
          (compare_ous_trans a b d (MayPrecede-not_after a b p) (MayPrecede-not_after b d q))

    All-trans :
        (a b : OrganizationalUnit) (l : List OrganizationalUnit)
        → MayPrecede a b
        → All (MayPrecede b) l
        → All (MayPrecede a) l
    All-trans a b [] p k = tt
    All-trans a b (d ∷ l) p k = (MayPrecede-trans a b d p k.0, All-trans a b l p k.1)

    insert_ou-IsSorted :
        (ou : OrganizationalUnit) (os : List OrganizationalUnit)
        → IsSorted os
        → IsSorted (insert_ou c ou os)
    unfolding insert_ou
    insert_ou-IsSorted ou [] s = (tt, tt)
    insert_ou-IsSorted ou (o ∷ os) s = elim (Ordering-cases (compare_ous c ou o)) [
      | inl g ↦ rw (insert_ou-gt c ou o os g) (
        insert_ou-All c (MayPrecede o) ou os (MayPrecede-of o ou (compare_ous-total ou o g)) s.0,
        insert_ou-IsSorted ou os s.1,
      )
      | inr g ↦
          rw (insert_ou-le c ou o os g)
            ((MayPrecede-of ou o g, All-trans ou o os (MayPrecede-of ou o g) s.0), s)
    ]

    -- The sorted list is ordered by name, and units of equal names by identifier.
    sort_ous-IsSorted : (ous : List OrganizationalUnit) → IsSorted (sort_ous c ous)
    unfolding sort_ous
    sort_ous-IsSorted [] = tt
    sort_ous-IsSorted (ou ∷ ous) = insert_ou-IsSorted ou (sort_ous c ous) (sort_ous-IsSorted ous)

-- Sorting loses no unit and adds none, and orders them by name, and units of equal names by
-- identifier, if `localeCompare` is a consistent comparison.
pub sort_ous-perm_IsSorted :
    (c : Collation) (ous : List OrganizationalUnit)
    → IsCollation c
    → Perm (sort_ous c ous) ous × IsSorted c (sort_ous c ous)
sort_ous-perm_IsSorted c ous h = (sort_ous-perm c ous, sort_ous-IsSorted c h ous)
