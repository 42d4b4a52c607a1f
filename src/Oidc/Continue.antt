-- ===== src/Oidc/Continue.antt =====
-- Which targets resolveAuthorizationContinue of portal/web/app/utils/oidc.ts accepts.
use Prim.Native.Char.{code}
use Prim.Native.String
use adscope_identity.Prelude.{
  String, Bool, false, not, ◌&&◌, eqb, ◌≡◌, refl, ◌∙◌, some, arith, string_equality, true,
  Bool-cases, inl, inr, Option-cases,
}
use package.text.Mathlib.TextEquality.{eq_iff}
use package.text.Mathlib.TextLemmas.{cons-append}
use adscope_identity.Text.{truthy}
use adscope_identity.Oidc.{
  Url, UrlParser, Unknown, text, other, authorization_path, accept_url,
  resolve_authorization_continue,
}

-- A path that begins with one slash and not with two.
abbrev pub is_rooted : String → Bool
is_rooted String.[] = false
is_rooted (String.◌∷◌ c String.[]) = eqb (code c) 47
is_rooted (String.◌∷◌ c (String.◌∷◌ d s)) = eqb (code c) 47 && not (eqb (code d) 47)

-- What the URL standard says of the serialization at one origin: the path and the query of a parsed URL
-- of that origin, where the path begins with one slash only, are parsed again as that URL. A path with
-- two slashes would be read as a host, and that of a `blob:` URL begins with no slash.
abbrev pub ReadsPaths : UrlParser → String → Type 0
ReadsPaths new_url origin =
    (value : String) (url : Url)
    → new_url value (String.◌++◌ origin "/") ≡ some url
    → url.origin ≡ origin
    → is_rooted url.pathname ≡ true
    → new_url (String.◌++◌ url.pathname url.search) (String.◌++◌ origin "/") ≡ some url

accept_url-some :
    (origin : String) (url : Url) (target : String)
    → accept_url origin url ≡ some target
    → (url.origin ≡ origin)
      × (url.pathname ≡ authorization_path)
      × (target ≡ String.◌++◌ authorization_path url.search)
unfolding accept_url
accept_url-some origin url target e =
    ground (arith, eq_iff url.origin origin, eq_iff url.pathname authorization_path)

-- The authorization path with something after it.
abbrev pub IsTarget : String → Type 0
IsTarget target = (rest : String) × (target ≡ String.◌++◌ authorization_path rest)

truthy-path : (s : String) → truthy (String.◌++◌ authorization_path s) ≡ true
truthy-path s = rw cons-append

resolve-text :
    (new_url : UrlParser) (value origin : String) (url : Url)
    → truthy value ≡ true
    → new_url value (String.◌++◌ origin "/") ≡ some url
    → resolve_authorization_continue new_url (text value) origin ≡ accept_url origin url
unfolding resolve_authorization_continue
resolve-text new_url value origin url h e = rw (h, e) refl

-- A target comes from an accepted URL.
resolve-accepts :
    (new_url : UrlParser) (value : Unknown) (origin target : String)
    → resolve_authorization_continue new_url value origin ≡ some target
    → (v : String) × (url : Url) × (new_url v (String.◌++◌ origin "/") ≡ some url)
      × (accept_url origin url ≡ some target)
unfolding resolve_authorization_continue
resolve-accepts new_url other origin target e = absurd (ground arith)
resolve-accepts new_url (text value) origin target e = elim (Bool-cases (truthy value)) [
  | inl full ↦ elim (Option-cases (new_url value (String.◌++◌ origin "/"))) [
    | inl failed ↦ absurd (cc (rw (full, failed) at e))
    | inr (url, parsed) ↦ (value, url, parsed, rw (full, parsed) at e)
  ]
  | inr empty ↦ absurd (cc (rw empty at e))
]

-- For a browser that parses a serialized path and query of its own origin, with one slash at the front,
-- as the URL that they come from: if a target is accepted, then the browser reads it as a URL of its
-- own origin with the authorization path, of which the target is the path and the query, and the
-- function accepts it again unchanged.
pub resolve-safe :
    (new_url : UrlParser) (value : Unknown) (origin target : String)
    → ReadsPaths new_url origin
    → resolve_authorization_continue new_url value origin ≡ some target
    → (url : Url) × (new_url target (String.◌++◌ origin "/") ≡ some url)
      × (url.origin ≡ origin)
      × (url.pathname ≡ authorization_path)
      × (target ≡ String.◌++◌ url.pathname url.search)
      × (resolve_authorization_continue new_url (text target) origin ≡ some target)
resolve-safe new_url value origin target h e =
    let (v, url, parsed, accepted) = resolve-accepts new_url value origin target e in
    let (same, path, shape) = accept_url-some origin url target accepted in
    let read = h v url parsed same (rw path refl) in
    let found : new_url target (String.◌++◌ origin "/") ≡ some url = rw (shape, ← path) read in
    let full : truthy target ≡ true = rw shape (truthy-path url.search) in
    (
      url,
      found,
      same,
      path,
      rw (shape, path) refl,
      resolve-text new_url target origin url full found ∙ accepted,
    )

-- What is accepted is a target.
pub resolve-IsTarget :
    (new_url : UrlParser) (value : Unknown) (origin target : String)
    → resolve_authorization_continue new_url value origin ≡ some target
    → IsTarget target
resolve-IsTarget new_url value origin target e =
    let (v, url, parsed, accepted) = resolve-accepts new_url value origin target e in
    let (same, path, shape) = accept_url-some origin url target accepted in (url.search, shape)
