-- ===== src/AuthorizePage/View.antt =====
-- What portal/web/app/pages/authorize.vue shows.
use Prim.Native.String
use adscope_identity.Prelude.{
  String, Bool, true, false, if◌then◌else◌, Option, none, some, List, [], ◌∷◌, ◌++◌,
}
use adscope_identity.Text.{truthy}
use adscope_identity.Oidc.{Unknown}
use adscope_identity.Types.{OidcFormField}
use adscope_identity.View.{
  Element, title, words, button, post_form, hidden, decision, plain_row, for_each,
}
use adscope_identity.UserApi.State.{Store}
use adscope_identity.UserApi.{Action}
use adscope_identity.AuthorizePage.{
  Page, OidcAuthorizationContext, Printer, form_fields, claim_entries, claim_value,
}
use adscope_identity.AuthorizePage.Programs.{load_authorization_context, switch_account}
use adscope_identity.MePage.Programs.{exit_user}
use adscope_identity.MePage.View.{user_shell}

-- What the handlers of the template do.
pub data Intent : Type 0 where
  exits reads_again switches : Intent

unfoldable pub perform : Intent → Action (Unit {0})
perform exits = exit_user
perform reads_again = load_authorization_context
perform switches = switch_account

-- Whether a handler ends the session of the user.
abbrev pub changes : Intent → Bool
changes switches = true
changes _ = false

abbrev pub loading_card : List (Element Intent)
loading_card = title "正在读取授权请求" ∷ words "请稍候。" ∷ []

abbrev pub error_card : String → List (Element Intent)
error_card message = title "无法继续授权" ∷ words message ∷ button "重新读取" false reads_again ∷ []

abbrev pub claim_shown : Printer → String × Unknown → List (Element Intent)
claim_shown printer (name, value) = plain_row (name ∷ claim_value printer value ∷ []) ∷ []

abbrev pub field_hidden : OidcFormField → List (Element Intent)
field_hidden field = hidden field.name field.value ∷ []

-- The form in which the user consents, which the browser posts.
unfoldable pub consent : Printer → Bool → OidcAuthorizationContext → List (Element Intent)
consent printer switching context =
    post_form "/oauth2/authorize"
      ∷ title (String.◌++◌ context.client_name " 请求访问")
      ∷ words "确认后，该应用将获得下列账号信息。"
      ∷ title "当前账号"
      ∷ plain_row ("显示名" ∷ context.user.display_name ∷ [])
      ∷ plain_row ("用户名" ∷ context.user.username ∷ [])
      ∷ plain_row ("工号" ∷ context.user.employee_id ∷ [])
      ∷ title "提供的信息"
      ∷ for_each (claim_entries (some context)) (claim_shown printer)
    ++ (for_each (form_fields (some context)) field_hidden
        ++ (hidden "csrf_token" context.csrf_token
            ∷ decision "确认授权" "approve" switching
            ∷ decision "取消" "cancel" switching
            ∷ button "切换账号" switching switches
            ∷ []))

abbrev pub consent_of : Printer → Bool → Option OidcAuthorizationContext → List (Element Intent)
consent_of printer switching none = []
consent_of printer switching (some context) = consent printer switching context

-- The cards, of which the first that has its condition is shown.
unfoldable pub content : Printer → Page → List (Element Intent)
content printer p =
    if p.loading
    then loading_card
    else if truthy p.error_message
    then error_card p.error_message
    else consent_of printer p.switching_account p.context

unfoldable pub view : Printer → Store → List (Element Intent)
view printer s = user_shell exits s.profile ++ content printer s.refs.authorize
