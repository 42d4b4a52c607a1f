-- ===== src/LoginPage/Programs.antt =====
-- portal/web/app/pages/login.vue: what the page does with the server.
use adscope_identity.Prelude.{String, false, if◌then◌else◌, Option, none, some}
use adscope_identity.Text.{truthy}
use adscope_identity.Oidc.{UrlParser}
use adscope_identity.Async.{return, ◌>>=◌, ◌>>◌, read, modify, call}
use adscope_identity.UserApi.State.{Store, Target, navigate}
use adscope_identity.UserApi.{Action, write_refs, assign, load_token, load_me, login}
use adscope_identity.LoginPage.{Page, authorization_continue}

abbrev pub on_page : (Page → Page) → Store → Store
on_page f = write_refs (λ r. record r { login = f r.login })

abbrev pub me_target : Target
me_target = record { path = "/me"; continue_to = none }

-- The rest of the hook `onMounted`, where no authorization request waits.
unfoldable pub resume_session : Action (Unit {0})
resume_session = do
  stored ← load_token
  if truthy stored
      then (do valid ← load_me false; if valid then call (navigate 0 me_target) else return tt)
      else return tt

-- Where the page goes after a login.
abbrev pub leave : Option String → Action (Unit {0})
leave none = call (navigate 0 me_target)
leave (some target) = if truthy target then modify (assign target) else call (navigate 0 me_target)

module _ (new_url : UrlParser) where
  -- The hook `onMounted`.
  unfoldable pub mounted : Action (Unit {0})
  mounted = do
    s ← read
    elim (authorization_continue new_url s.location) [
      | none ↦ resume_session
      | some target ↦ if truthy target then return tt else resume_session
    ]

  unfoldable pub submit_login : Action (Unit {0})
  submit_login = do
    s ← read
    accepted ← login s.refs.login.username s.refs.login.password
    if accepted
        then (do
          modify (on_page (λ p. record p { password = "" }))
          s ← read
          leave (authorization_continue new_url s.location))
        else return tt
