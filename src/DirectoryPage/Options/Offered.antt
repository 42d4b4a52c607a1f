-- ===== src/DirectoryPage/Options/Offered.antt =====
-- Which units the editor of a unit offers as a parent.
use adscope_identity.Prelude.{
  String, ◌==◌, string_equality, option_equality, ◌≡◌, refl, ap, subst, sym, ◌∙◌, Option, some,
  List, [], ◌∷◌, map, All, has, IsUnique,
}
use adscope_identity.Types.{OrganizationalUnit, OuTreeItem}
use adscope_identity.Directory.{Collation, ids, flatten_ous}
use adscope_identity.Directory.Flatten.{units, flatten_ous_total}
use adscope_identity.DirectoryPage.Options.{parent_units}
use adscope_identity.View.{SelectOption}

abbrev pub values : List SelectOption → List String
values options = map (λ o. o.value) options

values-parent_units :
    (editing_id : Option String) (items : List OuTreeItem)
    → values (parent_units editing_id items) ≡ ids (units items)
unfolding parent_units
values-parent_units editing_id [] = refl
values-parent_units editing_id (item ∷ items) =
    ap (λ xs. item.ou.id ∷ xs) (values-parent_units editing_id items)

parent_units-disabled :
    (editing_id : Option String) (items : List OuTreeItem)
    → All (λ o. o.disabled ≡ (editing_id == some o.value)) (parent_units editing_id items)
unfolding parent_units
parent_units-disabled editing_id [] = tt
parent_units-disabled editing_id (item ∷ items) = (refl, parent_units-disabled editing_id items)

-- For every list of units, also one with repeated identifiers or cycles of parents, the flat list
-- exists, and of its units the editor offers as parents each identifier of the list once and no other,
-- where exactly that of the edited unit cannot be chosen.
pub parent_units-offered :
    (c : Collation) (ous : List OrganizationalUnit) (editing_id : Option String)
    → (items : List OuTreeItem) × (flatten_ous c ous ≡ some items)
      × IsUnique (values (parent_units editing_id items))
      × ((x : String) → has x (values (parent_units editing_id items)) ≡ has x (ids ous))
      × All (λ o. o.disabled ≡ (editing_id == some o.value)) (parent_units editing_id items)
parent_units-offered c ous editing_id =
    let (items, run, listed, unique, named) = flatten_ous_total c ous in
    let same = values-parent_units editing_id items in
    (
      items,
      run,
      subst IsUnique (sym same) unique,
      λ x. ap (has x) same ∙ named x,
      parent_units-disabled editing_id items,
    )
