-- ===== src/Directory/Children.antt =====
-- The map from parents to children that both traversals fill.
use adscope_identity.Prelude.{
  String, ◌==◌, ◌≡◌, refl, ◌∙◌, ap, Option, List, [], ◌∷◌, ◌++◌, filter, or_else, map_get, get-set,
  get-map_values, append_assoc, append-nil, arith, All, All-filter, option_equality,
  string_equality, same_option_iff, Bool, true, false, some, if◌then◌else◌,
}
use adscope_identity.Types.{OrganizationalUnit}
use adscope_identity.Directory.{Collation, add_child, group_by_parent, sort_ous, children}
use adscope_identity.Directory.Sort.{sort_ous-All}

same_parent : (p q : Option String) → (p == q) ≡ true → p ≡ q
same_parent p q = (same_option_iff p q).0

or_else-if {ℓ} :
    {A : Type ℓ} (b : Bool) (o : Option (List A)) (xs : List A) (x : A)
    → (b ≡ true → xs ≡ or_else o [])
    → or_else (if b then some (xs ++ x ∷ []) else o) [] ≡ or_else o [] ++ (if b then x ∷ [] else [])
or_else-if true o xs x h = ap (λ l. l ++ x ∷ []) (h refl)
or_else-if false o xs x h = rw append-nil

get-add_child :
    (p : Option String) (ou : OrganizationalUnit)
    (m : List (Option String × List OrganizationalUnit))
    → or_else (map_get p (add_child m ou)) []
      ≡ or_else (map_get p m) [] ++ filter (λ o. o.parent_id == p) (ou ∷ [])
unfolding add_child
get-add_child p ou m = rw (get-set ou.parent_id p _ m) (
    or_else-if _ (map_get p m) _ ou
      (λ e. ap (λ q. or_else (map_get q m) []) (same_parent ou.parent_id p e)))

get-group_by_parent :
    (p : Option String) (ous : List OrganizationalUnit)
    (m : List (Option String × List OrganizationalUnit))
    → or_else (map_get p (group_by_parent ous m)) []
      ≡ or_else (map_get p m) [] ++ filter (λ o. o.parent_id == p) ous
unfolding group_by_parent
get-group_by_parent p [] m = rw append-nil
get-group_by_parent p (ou ∷ ous) m =
    rw (get-group_by_parent p ous (add_child m ou), get-add_child p ou m)
      (ground (
        arith,
        append_assoc (or_else (map_get p m) []) (ou ∷ []) (filter (λ o. o.parent_id == p) ous),
        append-nil (or_else (map_get p m) []),
      ))

module _ (c : Collation) where
  -- The children of a unit are the units that name it as their parent, sorted.
  pub children-filter :
      (ous : List OrganizationalUnit) (p : Option String)
      → children c ous p ≡ sort_ous c (filter (λ o. o.parent_id == p) ous)
  unfolding children map_get
  children-filter ous p =
      get-map_values (sort_ous c) p [] (group_by_parent ous []) (unfold sort_ous in refl)
      ∙ ap (sort_ous c) (get-group_by_parent p ous [])

  pub children-All {ℓ} :
      (P : OrganizationalUnit → Type ℓ) (ous : List OrganizationalUnit) (p : Option String)
      → All P ous
      → All P (children c ous p)
  children-All P ous p h = rw (children-filter ous p) (sort_ous-All c P _ (All-filter P _ ous h))

  filter-All :
      (p : Option String) (ous : List OrganizationalUnit)
      → All (λ o. o.parent_id ≡ p) (filter (λ o. o.parent_id == p) ous)
  filter-All p [] = tt
  filter-All p (o ∷ os) = ground (arith, filter-All p os, same_parent o.parent_id p)

  pub children-parent :
      (ous : List OrganizationalUnit) (p : Option String)
      → All (λ o. o.parent_id ≡ p) (children c ous p)
  children-parent ous p =
      rw (children-filter ous p) (sort_ous-All c (λ o. o.parent_id ≡ p) _ (filter-All p ous))
