-- ===== src/MePage.antt =====
-- portal/web/app/pages/me.vue: what the page shows of the user's account, and its two forms; and
-- `displayName` of portal/web/app/components/user/UserShell.vue, which is the same.
pub mod Forms
pub mod Programs
pub mod Session
pub mod Saving
pub mod View
pub mod Tests
use adscope_identity.Prelude.{
  String, Bool, true, false, not, ◌&&◌, ◌==◌, string_equality, if◌then◌else◌, Option, none, some,
  or_else, List, [], ◌∷◌,
}
use adscope_identity.Text.{truthy}
use adscope_identity.Types.{UserProfile}

pub record ContactForm : Type 0 where
  pub email : String
  pub mobile : String

pub record PasswordForm : Type 0 where
  pub current_password : String
  pub new_password : String
  pub confirm_password : String

-- The refs of the page.
pub record Page : Type 0 where
  pub contact_open : Bool
  pub password_open : Bool
  pub saving : Bool
  pub contact_form : ContactForm
  pub password_form : PasswordForm

-- `a || b`
abbrev pub first_full : String → String → String
first_full a b = if truthy a then a else b

unfoldable pub display_name : Option UserProfile → String
display_name none = ""
display_name (some p) = first_full p.display_name (first_full p.username "")

pub record ContactField : Type 0 where
  pub icon : String
  pub label : String
  pub value : String
  pub empty : Bool

abbrev pub contact_field : String → String → String → ContactField
contact_field icon label value = record {
  icon = icon;
  label = label;
  value = first_full value "未填写";
  empty = not (truthy value);
}

abbrev pub email_of : Option UserProfile → String
email_of none = ""
email_of (some p) = or_else p.email ""

abbrev pub mobile_of : Option UserProfile → String
mobile_of none = ""
mobile_of (some p) = or_else p.mobile ""

unfoldable pub contact_fields : Option UserProfile → List ContactField
contact_fields profile =
    contact_field "ph:envelope-simple" "邮箱" (email_of profile)
    ∷ contact_field "ph:device-mobile" "手机" (mobile_of profile)
    ∷ []

unfoldable pub password_mismatch : PasswordForm → Bool
password_mismatch f =
    truthy f.new_password && truthy f.confirm_password && not (f.new_password == f.confirm_password)

unfoldable pub open_contact : Option UserProfile → Page → Page
open_contact profile p = record p {
  contact_form = record { email = email_of profile; mobile = mobile_of profile };
  contact_open = true;
}

unfoldable pub open_password : Page → Page
open_password p = record p {
  password_form = record { current_password = ""; new_password = ""; confirm_password = "" };
  password_open = true;
}
