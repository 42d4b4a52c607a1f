-- ===== src/Oidc/Tests.antt =====
-- Runs of the functions of the OIDC module, and their laws at concrete requests.
use Prim.Native.String
use package.text.Mathlib.TextEquality.{eq_iff}
use adscope_identity.Prelude.{
  String, ◌≡◌, refl, subst, ◌==◌, ◌||◌, string_equality, if◌then◌else◌, none, some, arith,
}
use adscope_identity.Types.{OidcAuthorization}
use adscope_identity.Oidc.{
  Url, UrlParser, text, other, authorization_path, resolve_authorization_continue, consent_form,
}
use adscope_identity.Oidc.Continue.{ReadsPaths, resolve-safe}
use adscope_identity.Oidc.FormFields.{ReadsBack, consent_form-reads}

abbrev portal : String
portal = "https://portal.example.test"

abbrev request_url : Url
request_url = record { origin = portal; pathname = authorization_path; search = "?state=value" }

abbrev client_url : Url
client_url = record {
  origin = "https://client.example.test";
  pathname = authorization_path;
  search = "?client_id=desktop";
}

-- The parser's answers for three texts; any other text is refused.
abbrev tabled_url : UrlParser
tabled_url value base =
    if value == "/oauth2/authorize?state=value#ignored" || value == "/oauth2/authorize?state=value"
    then some request_url
    else if value == "https://client.example.test/oauth2/authorize?client_id=desktop"
    then some client_url
    else none

-- What the parser answers at that origin is the first URL.
only_request_url :
    (value base : String) (url : Url)
    → tabled_url value base ≡ some url
    → url.origin ≡ portal
    → request_url ≡ url
only_request_url value base url e same = ground (arith, eq_iff "https://client.example.test" portal)

tabled_url-ReadsPaths : ReadsPaths tabled_url portal
tabled_url-ReadsPaths value url e same rooted =
    subst
      (λ (u : Url). tabled_url (String.◌++◌ u.pathname u.search) (String.◌++◌ portal "/") ≡ some u)
      (only_request_url value (String.◌++◌ portal "/") url e same) refl

drops_fragment :
    resolve_authorization_continue tabled_url (text "/oauth2/authorize?state=value#ignored") portal
    ≡ some "/oauth2/authorize?state=value"
unfolding resolve_authorization_continue
drops_fragment = refl

refuses_other_origin :
    resolve_authorization_continue tabled_url
      (text "https://client.example.test/oauth2/authorize?client_id=desktop")
      portal
    ≡ none
unfolding resolve_authorization_continue
refuses_other_origin = refl

refuses_arrays : resolve_authorization_continue tabled_url other portal ≡ none
unfolding resolve_authorization_continue
refuses_arrays = refl

resolve-safe_example :
    (url : Url) × (tabled_url "/oauth2/authorize?state=value" (String.◌++◌ portal "/") ≡ some url)
    × (url.origin ≡ portal)
    × (url.pathname ≡ authorization_path)
    × ("/oauth2/authorize?state=value" ≡ String.◌++◌ url.pathname url.search)
    × (resolve_authorization_continue tabled_url (text "/oauth2/authorize?state=value") portal
        ≡ some "/oauth2/authorize?state=value")
resolve-safe_example =
    resolve-safe tabled_url (text "/oauth2/authorize?state=value#ignored") portal
      "/oauth2/authorize?state=value" tabled_url-ReadsPaths drops_fragment

abbrev authorization : OidcAuthorization
authorization = record {
  response_type = "code";
  client_id = "desktop-client";
  redirect_uri = "http://127.0.0.1:47123/callback";
  scope = "openid profile email";
  state = "state-value";
  nonce = "nonce-value";
  code_challenge = "challenge-value";
  code_challenge_method = "S256";
  response_mode = some "query";
  prompt = none;
}

consent_form-reads_example :
    ReadsBack authorization "csrf" "approve" (consent_form authorization "csrf" "approve")
consent_form-reads_example = consent_form-reads authorization "csrf" "approve"
