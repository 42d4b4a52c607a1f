-- ===== src/DirectoryPage/Options/Tests.antt =====
-- The options of the editors for two units.
use adscope_identity.Prelude.{
  String, ◌==◌, string_equality, option_equality, ◌≡◌, some, List, All, has, IsUnique,
}
use adscope_identity.Types.{OuTreeItem}
use adscope_identity.Directory.{ids, flatten_ous}
use adscope_identity.DirectoryPage.Samples.{no_order, units}
use adscope_identity.DirectoryPage.Options.{parent_units}
use adscope_identity.DirectoryPage.Options.Offered.{values, parent_units-offered}

parent_units-offered_example :
    (items : List OuTreeItem) × (flatten_ous no_order units ≡ some items)
    × IsUnique (values (parent_units (some "it") items))
    × ((x : String) → has x (values (parent_units (some "it") items)) ≡ has x (ids units))
    × All (λ o. o.disabled ≡ (some "it" == some o.value)) (parent_units (some "it") items)
parent_units-offered_example = parent_units-offered no_order units (some "it")
