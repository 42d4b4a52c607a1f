-- ===== src/UserApi/State.antt =====
-- The store that the operations share, and the calls that they make.
use adscope_identity.Prelude.{ℕ, String, Bool, Option, List}
use adscope_identity.Types.{
  UserProfile, UserLoginResponse, UserContactUpdateResponse, PasswordChangeResponse,
}
use adscope_identity.MePage
use adscope_identity.LoginPage
use adscope_identity.AuthorizePage

pub data Notice : Type 0 where
  success failure warning : String → Notice

-- The refs of the pages of the user.
pub record Refs : Type 0 where
  pub me : MePage.Page
  pub login : LoginPage.Page
  pub authorize : AuthorizePage.Page

-- The shared state of `useState`, the entry `adscope.userAccessToken` of the browser's storage, and
-- the notifications so far, the latest first.
pub record Store : Type 0 where
  pub access_token : String
  pub profile : Option UserProfile
  pub pending : ℕ
  pub stored_token : Option String
  pub notices : List Notice
  pub refs : Refs
  pub location : LoginPage.Location

pub data Method : Type 0 where
  get_method post_method patch_method : Method

pub data Body : Type 0 where
  no_body : Body
  credentials : String → String → Body
  contact : Option String → Option String → Option String → Body
  passwords : String → String → Body

pub record Request : Type 0 where
  pub method : Method
  pub path : String
  -- The header `authorization`.
  pub authorization : Option String
  -- Whether the header `content-type: application/json` is there.
  pub json_content : Bool
  pub body : Body

pub record Response : Type 0 where
  pub status : ℕ
  pub status_text : String

-- The bodies that `response.json()` is cast to.
pub data Payload : Type 0 where
  login_payload profile_payload contact_payload password_payload : Payload

-- The body of a refused authorization request, where `null` and a body without an error are the same.
pub record Refusal : Type 0 where
  pub refusal : Option String

-- A target of `navigateTo`, with the parameter `continue` of its query.
pub record Target : Type 0 where
  pub path : String
  pub continue_to : Option String

-- `fetch_context` reads the context of an authorization request and goes without a token; its body is
-- read as a context or, for an error, as a refusal. These calls are labelled with the generation of
-- the reading that makes them, and those that no reading makes with 0; a label has no effect.
pub data Call : Type 0 where
  fetch : Request → Call
  json : Payload → Call
  fetch_context : ℕ → String → Call
  context_json : ℕ → Call
  refusal_json : ℕ → Call
  navigate : ℕ → Target → Call

abbrev pub Value : Call → Type 0
Value (fetch r) = Response
Value (json login_payload) = UserLoginResponse
Value (json profile_payload) = UserProfile
Value (json contact_payload) = UserContactUpdateResponse
Value (json password_payload) = PasswordChangeResponse
Value (fetch_context g path) = Response
Value (context_json g) = AuthorizePage.OidcAuthorizationContext
Value (refusal_json g) = Refusal
Value (navigate g target) = Unit
