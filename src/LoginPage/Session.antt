-- ===== src/LoginPage/Session.antt =====
-- The programs of the page and the invariant of the user session.
use adscope_identity.Prelude.{String, false, if◌then◌else◌, Option, none, some, ◌≡◌, refl}
use adscope_identity.Text.{truthy}
use adscope_identity.Oidc.{UrlParser}
use adscope_identity.Oidc.Continue.{IsTarget, resolve-IsTarget}
use adscope_identity.Async.{return}
use adscope_identity.UserApi.Session.{
  KeepsSession, Preserves, write_refs-Preserves, assign-Preserves, in_turn, gives, either, changes,
  reads, navigate-Keeps,
}
use adscope_identity.UserApi.Session.Operations.{load_token-Keeps, load_me-Keeps, login-Keeps}
use adscope_identity.LoginPage.{Page, Location, authorization_continue}
use adscope_identity.LoginPage.Programs.{
  on_page, me_target, resume_session, leave, mounted, submit_login,
}

on_page-Preserves : (f : Page → Page) → Preserves (on_page f)
on_page-Preserves f = write_refs-Preserves (λ r. record r { login = f r.login })

resume_session-Keeps : KeepsSession 0 resume_session
unfolding resume_session
resume_session-Keeps = in_turn load_token-Keeps (λ stored.
    either (truthy stored)
      (in_turn (load_me-Keeps false)
        (λ valid. either valid (navigate-Keeps 0 me_target) (gives tt)))
      (gives tt))

leave-Keeps :
    (o : Option String)
    → ((target : String) → o ≡ some target → IsTarget target)
    → KeepsSession 0 (leave o)
leave-Keeps none h = navigate-Keeps 0 me_target
leave-Keeps (some target) h =
    either (truthy target) (changes (assign-Preserves target (h target refl)))
      (navigate-Keeps 0 me_target)

waits_or_resumes :
    (o : Option String)
    → KeepsSession 0 (elim o [
      | none ↦ resume_session
      | some target ↦ if truthy target then return tt else resume_session
    ])
waits_or_resumes none = resume_session-Keeps
waits_or_resumes (some target) = either (truthy target) (gives tt) resume_session-Keeps

module _ (new_url : UrlParser) where
  pub mounted-Keeps : KeepsSession 0 (mounted new_url)
  unfolding mounted
  mounted-Keeps = reads (λ s. waits_or_resumes (authorization_continue new_url s.location))

  continue-IsTarget :
      (l : Location) (target : String)
      → authorization_continue new_url l ≡ some target
      → IsTarget target
  unfolding authorization_continue
  continue-IsTarget l target e = resolve-IsTarget new_url l.continue_query l.origin target e

  pub submit_login-Keeps : KeepsSession 0 (submit_login new_url)
  unfolding submit_login
  submit_login-Keeps = reads (λ s.
      in_turn (login-Keeps s.refs.login.username s.refs.login.password) (λ accepted.
        either accepted
          (in_turn (changes (on_page-Preserves (λ p. record p { password = "" }))) (λ _. reads (λ u.
            leave-Keeps (authorization_continue new_url u.location)
              (continue-IsTarget u.location))))
          (gives tt)))
