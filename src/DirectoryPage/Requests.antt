-- ===== src/DirectoryPage/Requests.antt =====
-- portal/web/app/pages/admin/directory.vue: the bodies that its saves send.
use adscope_identity.Prelude.{String, Option}
use adscope_identity.Types.{UserStatus, OuForm, UserForm, GroupForm}
use adscope_identity.Forms.{nullable}

pub record OuPayload : Type 0 where
  pub name : String
  pub parent_id : Option String

unfoldable pub ou_payload : OuForm → OuPayload
ou_payload form = record { name = form.name; parent_id = nullable form.parent_id }

pub record UserPayload : Type 0 where
  pub username : String
  pub display_name : String
  pub surname : String
  pub given_name : String
  pub email : Option String
  pub mobile : Option String
  pub organizational_unit_id : String
  pub status : UserStatus

unfoldable pub user_payload : UserForm → UserPayload
user_payload form = record {
  username = form.username;
  display_name = form.display_name;
  surname = form.surname;
  given_name = form.given_name;
  email = nullable form.email;
  mobile = nullable form.mobile;
  organizational_unit_id = form.organizational_unit_id;
  status = form.status;
}

pub record GroupPayload : Type 0 where
  pub name : String
  pub organizational_unit_id : String

unfoldable pub group_payload : GroupForm → GroupPayload
group_payload form = record {
  name = form.name;
  organizational_unit_id = form.organizational_unit_id;
}
