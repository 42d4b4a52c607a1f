-- ===== src/Oidc.antt =====
-- portal/web/app/utils/oidc.ts: the target of a login for an authorization request, and the form
-- that confirms one. The browser's `URL` class is a parameter.
pub mod Continue
pub mod FormFields
pub mod Tests
use Prim.Native.String
use adscope_identity.Prelude.{
  String, Bool, not, ◌||◌, ◌==◌, string_equality, if◌then◌else◌, Option, none, some, List, [], ◌∷◌,
  ◌++◌,
}
use adscope_identity.Text.{truthy}
use adscope_identity.Types.{OidcAuthorization, OidcFormField}

abbrev pub authorization_path : String
authorization_path = "/oauth2/authorize"

-- The parts of a `URL` that the function reads.
pub record Url : Type 0 where
  pub origin : String
  pub pathname : String
  pub search : String

-- `new URL(value, base)`, where `none` stands for the exception.
abbrev pub UrlParser : Type 0
UrlParser = String → String → Option Url

-- A value of type `unknown`: a string, or anything else, such as an array of query values.
pub data Unknown : Type 0 where
  text : String → Unknown
  other : Unknown

unfoldable pub accept_url : String → Url → Option String
accept_url origin url =
    if not (url.origin == origin) || not (url.pathname == authorization_path)
    then none
    else some (String.◌++◌ url.pathname url.search)

unfoldable pub resolve_authorization_continue : UrlParser → Unknown → String → Option String
unfolding accept_url
resolve_authorization_continue new_url other origin = none
resolve_authorization_continue new_url (text value) origin =
    if truthy value
    then elim (new_url value (String.◌++◌ origin "/")) [
      | none ↦ none
      | some url ↦ accept_url origin url
    ]
    else none

abbrev pub field : String → String → OidcFormField
field name value = record { name = name; value = value }

-- The push of an optional field.
abbrev pub optional_field : String → Option String → List OidcFormField
optional_field name none = []
optional_field name (some value) = field name value ∷ []

unfoldable pub authorization_form_fields : OidcAuthorization → List OidcFormField
authorization_form_fields a =
    (field "response_type" a.response_type
      ∷ field "client_id" a.client_id
      ∷ field "redirect_uri" a.redirect_uri
      ∷ field "scope" a.scope
      ∷ field "state" a.state
      ∷ field "nonce" a.nonce
      ∷ field "code_challenge" a.code_challenge
      ∷ field "code_challenge_method" a.code_challenge_method
      ∷ [])
    ++ (optional_field "response_mode" a.response_mode ++ optional_field "prompt" a.prompt)

-- The inputs of the form of the page that asks for consent, and the button that submits it.
unfoldable pub consent_form : OidcAuthorization → String → String → List OidcFormField
unfolding authorization_form_fields
consent_form a csrf_token decision =
    authorization_form_fields a ++ (field "csrf_token" csrf_token ∷ field "decision" decision ∷ [])
