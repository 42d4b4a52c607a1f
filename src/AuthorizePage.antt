-- ===== src/AuthorizePage.antt =====
-- portal/web/app/pages/authorize.vue: what the page shows of an authorization request.
pub mod Programs
pub mod Loading
pub mod Session
pub mod Settling
pub mod View
pub mod Tests
use Prim.Native.String
use adscope_identity.Prelude.{
  ℕ, String, Bool, true, false, ◌==◌, string_equality, if◌then◌else◌, Option, none, some, or_else,
  List, [],
}
use adscope_identity.Text.Decimal.{decimal}
use adscope_identity.Types.{OidcAuthorization, OidcAuthorizationUser, OidcFormField}
use adscope_identity.Oidc.{Unknown, text, other, authorization_form_fields}

-- `claims` is an object, whose entries have values of any type.
pub record OidcAuthorizationContext : Type 0 where
  pub client_name : String
  pub user : OidcAuthorizationUser
  pub claims : List (String × Unknown)
  pub csrf_token : String
  pub authorization : OidcAuthorization

-- The refs of the page, and the variable `requestGeneration`.
pub record Page : Type 0 where
  pub context : Option OidcAuthorizationContext
  pub loading : Bool
  pub switching_account : Bool
  pub error_message : String
  pub request_generation : ℕ

unfoldable pub form_fields : Option OidcAuthorizationContext → List OidcFormField
form_fields none = []
form_fields (some context) = authorization_form_fields context.authorization

unfoldable pub claim_entries : Option OidcAuthorizationContext → List (String × Unknown)
claim_entries none = []
claim_entries (some context) = context.claims

-- The paths with the query of the page's own location.
abbrev pub authorize_path : String → String
authorize_path search = String.◌++◌ "/oauth2/authorize" search

abbrev pub context_path : String → String
context_path search = String.◌++◌ "/api/oauth2/authorize/context" search

abbrev pub is_error : Option String → String → Bool
is_error none name = false
is_error (some error) name = error == name

unfoldable pub authorization_error_message : ℕ → Option String → String
authorization_error_message status error =
    if is_error error "invalid_request"
    then "授权请求无效，请返回客户端重新发起。"
    else if is_error error "server_error"
    then "授权服务暂时不可用，请稍后重试。"
    else String.◌++◌ "无法读取授权请求（" (String.◌++◌ (decimal status) "）")

-- `JSON.stringify` and `String` of a value that is no string.
pub record Printer : Type 0 where
  pub json_stringify : Unknown → Option String
  pub to_text : Unknown → String

unfoldable pub claim_value : Printer → Unknown → String
claim_value p (text s) = s
claim_value p other = or_else (p.json_stringify other) (p.to_text other)
