-- ===== src/Oidc/FormFields.antt =====
-- The inputs of the form of an authorization, and a reader of them.
use adscope_identity.Prelude.{
  String, ◌≡◌, refl, Option, none, some, List, [], ◌∷◌, map, ◌==◌, string_equality, if◌then◌else◌,
  IsUnique, ◌>>=◌, arith,
}
use adscope_identity.Types.{OidcAuthorization, OidcFormField}
use adscope_identity.Oidc.{consent_form}

-- What a server reads under a name: the value of its first field.
abbrev pub value_of : String → List OidcFormField → Option String
value_of name [] = none
value_of name (f ∷ fs) = if f.name == name then some f.value else value_of name fs

-- An independent reader of the form.
abbrev pub read_authorization : List OidcFormField → Option OidcAuthorization
read_authorization fs = do
  response_type ← value_of "response_type" fs
  client_id ← value_of "client_id" fs
  redirect_uri ← value_of "redirect_uri" fs
  scope ← value_of "scope" fs
  state ← value_of "state" fs
  nonce ← value_of "nonce" fs
  code_challenge ← value_of "code_challenge" fs
  code_challenge_method ← value_of "code_challenge_method" fs
  some (record {
    response_type = response_type;
    client_id = client_id;
    redirect_uri = redirect_uri;
    scope = scope;
    state = state;
    nonce = nonce;
    code_challenge = code_challenge;
    code_challenge_method = code_challenge_method;
    response_mode = value_of "response_mode" fs;
    prompt = value_of "prompt" fs;
  })

-- What is read back from a submitted form.
abbrev pub ReadsBack : OidcAuthorization → String → String → List OidcFormField → Type 0
ReadsBack a csrf_token decision fs =
    (read_authorization fs ≡ some a)
    × (value_of "csrf_token" fs ≡ some csrf_token)
    × (value_of "decision" fs ≡ some decision)
    × IsUnique (map (λ f. f.name) fs)

consent_form-parts :
    (a : OidcAuthorization) (mode prompt : Option String) (csrf_token decision : String)
    → ReadsBack
        (record a { response_mode = mode; prompt = prompt })
        csrf_token
        decision
        (consent_form (record a { response_mode = mode; prompt = prompt }) csrf_token decision)
unfolding consent_form
consent_form-parts a none none csrf_token decision = (refl, refl, refl, ground arith)
consent_form-parts a none (some p) csrf_token decision = (refl, refl, refl, ground arith)
consent_form-parts a (some m) none csrf_token decision = (refl, refl, refl, ground arith)
consent_form-parts a (some m) (some p) csrf_token decision = (refl, refl, refl, ground arith)

-- From the submitted consent form a server reads the confirmed authorization, with its optional
-- parts exactly where they are present, the token and the decision; no name stands on two fields.
pub consent_form-reads :
    (a : OidcAuthorization) (csrf_token decision : String)
    → ReadsBack a csrf_token decision (consent_form a csrf_token decision)
consent_form-reads a csrf_token decision =
    consent_form-parts a a.response_mode a.prompt csrf_token decision
