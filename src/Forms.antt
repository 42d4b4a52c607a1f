-- ===== src/Forms.antt =====
-- portal/web/app/utils/forms.ts: the blank forms, and the two parsers of form fields.
pub mod Laws
pub mod Tests
use adscope_identity.Prelude.{
  String, List, [], ◌∷◌, Option, none, some, true, map, filter, if◌then◌else◌,
}
use adscope_identity.Text.{trim, truthy, split}
use adscope_identity.Types.{DomainForm, OuForm, UserForm, GroupForm, active}

unfoldable pub blank_domain_form : DomainForm
blank_domain_form = record {
  id = "";
  name = "";
  enabled = true;
  mirror_root_dn = "";
  quarantine_ou_dn = "";
  upn_suffix = "";
  employee_id_attribute = "";
  managed_group_id_attribute = "";
}

unfoldable pub blank_ou_form : OuForm
blank_ou_form = record { id = ""; name = ""; parent_id = "" }

unfoldable pub blank_user_form : UserForm
blank_user_form = record {
  employee_id = "";
  username = "";
  display_name = "";
  surname = "";
  given_name = "";
  email = "";
  mobile = "";
  organizational_unit_id = "";
  status = active;
  initial_password = "";
}

unfoldable pub blank_group_form : GroupForm
blank_group_form = record {
  id = "";
  name = "";
  organizational_unit_id = "";
  member_employee_ids = "";
}

unfoldable pub nullable : String → Option String
nullable value = let trimmed = trim value in if truthy trimmed then some trimmed else none

unfoldable pub split_members : String → List String
split_members value = filter truthy (map trim (split b',' value))
