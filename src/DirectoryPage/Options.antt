-- ===== src/DirectoryPage/Options.antt =====
-- What the editors of the directory offer: portal/web/app/components/directory/OuEditor.vue,
-- UserEditor.vue and GroupEditor.vue; and `selectedKeys` of portal/web/app/pages/admin/directory.vue.
pub mod Offered
pub mod Tests
use Prim.Native.Char.{char}
use Prim.Native.String
use adscope_identity.Prelude.{
  ℕ, zero, suc, String, Bool, true, false, ◌==◌, string_equality, option_equality, if◌then◌else◌,
  Option, none, some, List, [], ◌∷◌, map,
}
use adscope_identity.Text.{trim, truthy}
use adscope_identity.Types.{OuTreeItem, UserForm}
use adscope_identity.View.{SelectOption}
use adscope_identity.DirectoryPage.{Page}

-- An ideographic space for each level.
unfoldable pub indent : ℕ → String
indent zero = ""
indent (suc depth) = String.◌∷◌ (char 0x3000 tt) (indent depth)

abbrev pub unit_label : OuTreeItem → String
unit_label item = String.◌++◌ (indent item.depth) item.ou.name

-- The units that a user or a group may belong to.
unfoldable pub unit_options : List OuTreeItem → List SelectOption
unit_options items =
    map (λ item. record { value = item.ou.id; label = unit_label item; disabled = false }) items

-- The units that a unit may have as parent, apart from none.
unfoldable pub parent_units : Option String → List OuTreeItem → List SelectOption
parent_units editing_id items =
    map
      (λ item. record {
        value = item.ou.id;
        label = unit_label item;
        disabled = editing_id == some item.ou.id;
      })
      items

unfoldable pub parent_options : Option String → List OuTreeItem → List SelectOption
parent_options editing_id items =
    record { value = ""; label = "根 OU"; disabled = false } ∷ parent_units editing_id items

-- `composedDisplayName`
unfoldable pub composed_display_name : UserForm → String
composed_display_name form = String.◌++◌ (trim form.surname) (trim form.given_name)

unfoldable pub selected_keys : Page → List String
selected_keys p = elim p.selected_ou_id [ none ↦ [] | some id ↦ if truthy id then id ∷ [] else [] ]

abbrev pub last_key : List String → Option String
last_key [] = none
last_key (key ∷ []) = some key
last_key (key ∷ next ∷ keys) = last_key (next ∷ keys)

-- The setter of `selectedKeys`, whose keys are texts.
unfoldable pub set_selected_keys : List String → Page → Page
set_selected_keys keys p = record p { selected_ou_id = last_key keys }
