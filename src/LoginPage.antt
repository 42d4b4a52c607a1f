-- ===== src/LoginPage.antt =====
-- portal/web/app/pages/login.vue: signing in, and where the page goes then. The browser's `URL` class
-- is a parameter.
pub mod Programs
pub mod Session
pub mod View
use adscope_identity.Prelude.{String, Option, List}
use adscope_identity.Oidc.{UrlParser, Unknown, resolve_authorization_continue}

-- The refs of the page.
pub record Page : Type 0 where
  pub username : String
  pub password : String

-- What the pages of the user read and write of the browser's location: the query of the current page,
-- its parameter `continue`, the origin, and the targets of `location.assign`, the latest first.
pub record Location : Type 0 where
  pub search : String
  pub continue_query : Unknown
  pub origin : String
  pub assigned : List String

unfoldable pub authorization_continue : UrlParser → Location → Option String
authorization_continue new_url l = resolve_authorization_continue new_url l.continue_query l.origin
