-- ===== src/DirectoryPage.antt =====
-- portal/web/app/pages/admin/directory.vue: the selection of an organizational unit, the editors, and
-- what they send. Its handlers stand in Programs and Removals.
pub mod Selection
pub mod Editors
pub mod Requests
pub mod Programs
pub mod Removals
pub mod Session
pub mod Unchanged
pub mod Guards
pub mod Samples
pub mod Options
pub mod View
pub mod Tests
use adscope_identity.Prelude.{
  String, Bool, true, false, not, ◌||◌, ◌&&◌, ◌==◌, string_equality, option_equality, if◌then◌else◌,
  Option, none, some, or_else, List, [], ◌∷◌, ◌++◌, map, filter, find?, any,
}
use adscope_identity.Text.{truthy, join}
use adscope_identity.Types.{
  OrganizationalUnit, UserRecord, GroupRecord, UserStatus, active, OuForm, UserForm, GroupForm,
}
use adscope_identity.Directory.{Collation, sort_ous}
use adscope_identity.Forms.{
  blank_ou_form, blank_user_form, blank_group_form, nullable, split_members,
}

pub data EditorKey : Type 0 where
  ou_editor user_editor group_editor : EditorKey

-- The refs of the page.
pub record Page : Type 0 where
  pub selected_ou_id : Option String
  pub editor : Option EditorKey
  pub saving : Bool
  pub editing_ou_id : Option String
  pub editing_user_id : Option String
  pub editing_group_id : Option String
  pub ou_form : OuForm
  pub user_form : UserForm
  pub group_form : GroupForm
  pub reset_password_target : Option UserRecord
  pub reset_password_value : String

abbrev pub find_ou : Option String → List OrganizationalUnit → Option OrganizationalUnit
find_ou id ous = find? (λ ou. some ou.id == id) ous

-- `selectedUsers` and `selectedGroups`
unfoldable pub selected_users : Option String → List UserRecord → List UserRecord
selected_users none users = []
selected_users (some id) users =
    if truthy id then filter (λ user. user.organizational_unit_id == id) users else []

unfoldable pub selected_groups : Option String → List GroupRecord → List GroupRecord
selected_groups none groups = []
selected_groups (some id) groups =
    if truthy id then filter (λ group. group.organizational_unit_id == id) groups else []

-- The first of a sorted list.
abbrev pub first_id : List OrganizationalUnit → Option String
first_id [] = none
first_id (ou ∷ ous) = some ou.id

-- The watch of `organizationalUnits`: the next selection.
unfoldable pub reselect : Collation → List OrganizationalUnit → Option String → Option String
reselect c [] selected = none
reselect c (ou ∷ ous) selected = elim (find_ou selected (ou ∷ ous)) [
  | none ↦ first_id (sort_ous c (ou ∷ ous))
  | some current ↦ selected
]

abbrev pub text_of : {A : Type 0} → (A → String) → Option A → String
text_of f none = ""
text_of f (some a) = f a

abbrev pub id_of : {A : Type 0} → (A → String) → Option A → Option String
id_of f none = none
id_of f (some a) = some (f a)

-- `ou?.parent_id ?? parentId ?? ''`
abbrev pub parent_of : Option OrganizationalUnit → Option String → String
parent_of none parent_id = or_else parent_id ""
parent_of (some ou) parent_id = or_else ou.parent_id (or_else parent_id "")

unfoldable pub open_ou_editor : Option OrganizationalUnit → Option String → Page → Page
open_ou_editor ou parent_id p = record p {
  editing_ou_id = id_of (λ o. o.id) ou;
  editing_user_id = none;
  editing_group_id = none;
  ou_form = record {
    id = text_of (λ o. o.id) ou;
    name = text_of (λ o. o.name) ou;
    parent_id = parent_of ou parent_id;
  };
  editor = some ou_editor;
}

-- `ou?.organizational_unit_id ?? selectedOuId.value ?? ''`
abbrev pub unit_of : Option String → Option String → String
unit_of own selected = or_else own (or_else selected "")

-- The rest of `openUserEditor`, once the identifier of the employee is known.
unfoldable pub open_user_editor : Option UserRecord → String → Page → Page
open_user_editor user employee_id p = record p {
  editing_user_id = id_of (λ u. u.employee_id) user;
  editing_ou_id = none;
  editing_group_id = none;
  user_form = record {
    employee_id = employee_id;
    username = text_of (λ u. u.username) user;
    display_name = text_of (λ u. u.display_name) user;
    surname = text_of (λ u. u.surname) user;
    given_name = text_of (λ u. u.given_name) user;
    email = text_of (λ u. or_else u.email "") user;
    mobile = text_of (λ u. or_else u.mobile "") user;
    organizational_unit_id = unit_of (id_of (λ u. u.organizational_unit_id) user) p.selected_ou_id;
    status = elim user [ none ↦ active | some u ↦ u.status ];
    initial_password = "";
  };
  editor = some user_editor;
}

abbrev pub group_form_of : Option GroupRecord → Option String → GroupForm
group_form_of group selected = record {
  id = text_of (λ g. g.id) group;
  name = text_of (λ g. g.name) group;
  organizational_unit_id = unit_of (id_of (λ g. g.organizational_unit_id) group) selected;
  member_employee_ids = text_of (λ g. join ", " g.member_employee_ids) group;
}

abbrev pub is_chosen : Option String → Bool
is_chosen none = false
is_chosen (some id) = truthy id

abbrev pub is_given : {A : Type 0} → Option A → Bool
is_given none = false
is_given (some a) = true

unfoldable pub open_group_editor : Option GroupRecord → Page → Page
open_group_editor group p =
    if not (is_given group) && not (is_chosen p.selected_ou_id) then p else record p {
      editing_group_id = id_of (λ g. g.id) group;
      editing_ou_id = none;
      editing_user_id = none;
      group_form = group_form_of group p.selected_ou_id;
      editor = some group_editor;
    }

-- The setters of `ouEditorOpen`, `userEditorOpen` and `groupEditorOpen`.
unfoldable pub set_editor_open : Bool → Page → Page
set_editor_open value p = if not value && not p.saving then record p { editor = none } else p

unfoldable pub open_reset_password : UserRecord → Page → Page
open_reset_password user p = record p {
  reset_password_target = some user;
  reset_password_value = "";
}

-- The setter of `resetPasswordOpen`.
unfoldable pub set_reset_password_open : Bool → Page → Page
set_reset_password_open value p =
    if not value && not p.saving
    then record p { reset_password_target = none; reset_password_value = "" }
    else p

-- The test of `removeOu` before it asks.
unfoldable pub is_in_use :
    OrganizationalUnit → List OrganizationalUnit → List UserRecord → List GroupRecord → Bool
is_in_use ou ous users groups =
    any (λ item. item.parent_id == some ou.id) ous
    || any (λ user. user.organizational_unit_id == ou.id) users
    || any (λ group. group.organizational_unit_id == ou.id) groups
