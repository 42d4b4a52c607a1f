-- ===== src/UserApi/Session/Entries.antt =====
-- The programs that the pages of the user start, and the invariant of the session.
use adscope_identity.Prelude.{ℕ, String, Bool, Option}
use adscope_identity.Async.{Proc, start_task, modify}
use adscope_identity.Async.Rules.{Ensures}
use adscope_identity.Async.Triples.{start_task-Ensures}
use adscope_identity.UserApi.State.{Refs, Store, Call, Value}
use adscope_identity.UserApi.{
  write_refs, Action, load_token, clear_token, load_me, login, logout, update_contact,
  change_password,
}
use adscope_identity.UserApi.Session.{
  write_refs-Preserves, changes, weight, IsSession, IsPermitted, KeepsSession,
}
use adscope_identity.UserApi.Session.Operations.{
  load_token-Keeps, clear_token-Keeps, load_me-Keeps, login-Keeps, logout-Keeps,
  update_contact-Keeps, change_password-Keeps,
}
use adscope_identity.Oidc.{UrlParser}
use adscope_identity.MePage.Programs.{
  mounted as me_mounted, start_contact, save_contact, save_password, exit_user,
}
use adscope_identity.MePage.Session.{
  mounted-Keeps as me_mounted-Keeps, start_contact-Keeps, save_contact-Keeps, save_password-Keeps,
  exit_user-Keeps,
}
use adscope_identity.LoginPage.Programs.{mounted as login_mounted, submit_login}
use adscope_identity.LoginPage.Session.{mounted-Keeps as login_mounted-Keeps, submit_login-Keeps}
use adscope_identity.AuthorizePage.Programs.{load_authorization_context, switch_account}
use adscope_identity.AuthorizePage.Session.{load_authorization_context-Keeps, switch_account-Keeps}

module _ (new_url : UrlParser) where
  -- What the pages start, with any arguments.
  pub data IsEntry : Proc Store Call Value → Type 0 where
    starts_load_token : IsEntry (start_task load_token)
    starts_clear_token : IsEntry (start_task clear_token)
    starts_load_me : (show_error : Bool) → IsEntry (start_task (load_me show_error))
    starts_login : (username password : String) → IsEntry (start_task (login username password))
    starts_logout : (show_message : Bool) → IsEntry (start_task (logout show_message))
    starts_update_contact :
        (email mobile : Option String) → IsEntry (start_task (update_contact email mobile))
    starts_change_password :
        (current_password new_password : String)
        → IsEntry (start_task (change_password current_password new_password))
    -- Handlers that only change refs of the pages.
    starts_refs : (f : Refs → Refs) → IsEntry (start_task (modify (write_refs f)))
    starts_me_mounted : IsEntry (start_task me_mounted)
    starts_start_contact : IsEntry (start_task start_contact)
    starts_save_contact : IsEntry (start_task save_contact)
    starts_save_password : IsEntry (start_task save_password)
    starts_exit_user : IsEntry (start_task exit_user)
    starts_login_mounted : IsEntry (start_task (login_mounted new_url))
    starts_submit_login : IsEntry (start_task (submit_login new_url))
    starts_load_authorization_context : IsEntry (start_task load_authorization_context)
    starts_switch_account : IsEntry (start_task switch_account)

  kept :
      {A : Type 0} (t : Action A)
      → KeepsSession 0 t
      → (s : Store) (b : ℕ) → IsSession b s
      → Ensures weight IsSession IsPermitted b (start_task t) s
  kept t h s b j = start_task-Ensures weight IsSession IsPermitted t h s b j

  -- Every program of the pages sends only permitted requests, each in its turn.
  pub entries :
      (p : Proc Store Call Value) (s : Store) (b : ℕ)
      → IsEntry p
      → IsSession b s
      → Ensures weight IsSession IsPermitted b p s
  entries _ s b starts_load_token j = kept load_token load_token-Keeps s b j
  entries _ s b starts_clear_token j = kept clear_token clear_token-Keeps s b j
  entries _ s b (starts_load_me e) j = kept (load_me e) (load_me-Keeps e) s b j
  entries _ s b (starts_login u p) j = kept (login u p) (login-Keeps u p) s b j
  entries _ s b (starts_logout m) j = kept (logout m) (logout-Keeps m) s b j
  entries _ s b (starts_update_contact e m) j =
      kept (update_contact e m) (update_contact-Keeps e m) s b j
  entries _ s b (starts_change_password c n) j =
      kept (change_password c n) (change_password-Keeps c n) s b j
  entries _ s b (starts_refs f) j =
      kept (modify (write_refs f)) (changes (write_refs-Preserves f)) s b j
  entries _ s b starts_me_mounted j = kept me_mounted me_mounted-Keeps s b j
  entries _ s b starts_start_contact j = kept start_contact start_contact-Keeps s b j
  entries _ s b starts_save_contact j = kept save_contact save_contact-Keeps s b j
  entries _ s b starts_save_password j = kept save_password save_password-Keeps s b j
  entries _ s b starts_exit_user j = kept exit_user exit_user-Keeps s b j
  entries _ s b starts_login_mounted j =
      kept (login_mounted new_url) (login_mounted-Keeps new_url) s b j
  entries _ s b starts_submit_login j =
      kept (submit_login new_url) (submit_login-Keeps new_url) s b j
  entries _ s b starts_load_authorization_context j =
      kept load_authorization_context load_authorization_context-Keeps s b j
  entries _ s b starts_switch_account j = kept switch_account switch_account-Keeps s b j
