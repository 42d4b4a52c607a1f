-- ===== src/DirectoryPage/Selection.antt =====
-- The selected organizational unit after the list of units changed.
use adscope_identity.Prelude.{
  String, true, false, ◌≡◌, refl, ap, sym, ◌∙◌, ◌==◌, string_equality, option_equality, beq_self,
  has, subst, Option, none, some, List, [], ◌∷◌, Bool-cases, Option-cases, ◌⊎◌, inl, inr, arith,
}
use adscope_identity.Types.{OrganizationalUnit}
use adscope_identity.Directory.{Collation, ids, sort_ous}
use adscope_identity.Directory.Sort.{sort_ous-has}
use adscope_identity.DirectoryPage.{find_ou, first_id, reselect}

-- Nothing is selected in an empty list, and otherwise one of its units.
abbrev pub IsSelection : List OrganizationalUnit → Option String → Type 0
IsSelection [] s = s ≡ none
IsSelection (ou ∷ ous) s = (id : String) × (s ≡ some id) × (has id (ids (ou ∷ ous)) ≡ true)

head-has :
    (ou : OrganizationalUnit) (ous : List OrganizationalUnit) → has ou.id (ids (ou ∷ ous)) ≡ true
head-has ou ous = ground (arith, beq_self ou.id)

find_ou-some :
    (s : Option String) (ous : List OrganizationalUnit) (o : OrganizationalUnit)
    → find_ou s ous ≡ some o
    → (s ≡ some o.id) × (has o.id (ids ous) ≡ true)
find_ou-some s [] o h = absurd (cc h)
find_ou-some s (ou ∷ ous) o h = elim (Bool-cases (some ou.id == s)) [
  | inl e ↦
      let same : ou ≡ o = cc (rw e at h) in
      let chosen : some ou.id ≡ s = (option_equality.decides (some ou.id) s).0 e in
      (
        sym chosen ∙ ap (λ x. some x.id) same,
        subst (λ x. has x.id (ids (ou ∷ ous)) ≡ true) same (head-has ou ous),
      )
  | inr e ↦ let (k, m) = find_ou-some s ous o (rw e at h) in (k, ground (arith, m))
]

find_ou-none :
    (id : String) (ous : List OrganizationalUnit)
    → find_ou (some id) ous ≡ none
    → has id (ids ous) ≡ false
find_ou-none id [] h = refl
find_ou-none id (ou ∷ ous) h = elim (Bool-cases (ou.id == id)) [
  | inl e ↦ absurd (cc (rw e at h))
  | inr e ↦ rw e (find_ou-none id ous (rw e at h))
]

first_id-has :
    (x : String) (os ous : List OrganizationalUnit)
    → ((y : String) → has y (ids os) ≡ has y (ids ous))
    → has x (ids ous) ≡ true
    → (id : String) × (first_id os ≡ some id) × (has id (ids ous) ≡ true)
first_id-has x [] ous same h = absurd (cc (same x ∙ h))
first_id-has x (o ∷ os) ous same h = (o.id, refl, sym (same o.id) ∙ head-has o os)

-- What the watch selects: the unit that was selected, if it is still there, and otherwise the first.
chosen-IsSelection :
    (c : Collation) (ou : OrganizationalUnit) (ous : List OrganizationalUnit)
    → (s : Option String) (found : Option OrganizationalUnit) → find_ou s (ou ∷ ous) ≡ found
    → IsSelection (ou ∷ ous) (elim found [ none ↦ first_id (sort_ous c (ou ∷ ous)) | some o ↦ s ])
chosen-IsSelection c ou ous s none h =
    first_id-has ou.id (sort_ous c (ou ∷ ous)) (ou ∷ ous) (λ x. sort_ous-has c x (ou ∷ ous))
      (head-has ou ous)
chosen-IsSelection c ou ous s (some o) h =
    let (e, m) = find_ou-some s (ou ∷ ous) o h in (o.id, e, m)

reselect-IsSelection :
    (c : Collation) (ous : List OrganizationalUnit) (s : Option String)
    → IsSelection ous (reselect c ous s)
unfolding reselect
reselect-IsSelection c [] s = refl
reselect-IsSelection c (ou ∷ ous) s = chosen-IsSelection c ou ous s (find_ou s (ou ∷ ous)) refl

-- A selected unit stays selected.
reselect-kept :
    (c : Collation) (ous : List OrganizationalUnit) (s : Option String)
    → IsSelection ous s
    → reselect c ous s ≡ s
unfolding reselect
reselect-kept c [] s h = sym h
reselect-kept c (ou ∷ ous) s (id, e, m) = elim (Option-cases (find_ou s (ou ∷ ous))) [
  | inl lost ↦
      absurd (
        cc (sym (find_ou-none id (ou ∷ ous) (subst (λ t. find_ou t (ou ∷ ous) ≡ none) e lost)) ∙ m))
  | inr (o, found) ↦ rw (reselect, found) refl
]

found_or_kept :
    (c : Collation) (ous : List OrganizationalUnit) (s : Option String)
    → (find_ou s ous ≡ none) ⊎ (reselect c ous s ≡ s)
unfolding reselect
found_or_kept c [] s = inl refl
found_or_kept c (ou ∷ ous) s = elim (Option-cases (find_ou s (ou ∷ ous))) [
  | inl lost ↦ inl lost
  | inr (o, found) ↦ inr (rw (reselect, found) refl)
]

-- After the list of units changed, nothing is selected if it is empty, and otherwise one of its units
-- is; the selection changes only if no unit of the list was selected, and the watch, run again, changes
-- nothing.
pub reselect-settles :
    (c : Collation) (ous : List OrganizationalUnit) (s : Option String)
    → IsSelection ous (reselect c ous s)
      × ((find_ou s ous ≡ none) ⊎ (reselect c ous s ≡ s))
      × (reselect c ous (reselect c ous s) ≡ reselect c ous s)
reselect-settles c ous s =
    let i = reselect-IsSelection c ous s in
    (i, found_or_kept c ous s, reselect-kept c ous (reselect c ous s) i)
