-- ===== src/UserApi/Pages.antt =====
-- The pages of the user as they are shown, and what their handlers start.
pub mod Tests
use adscope_identity.Prelude.{
  String, Bool, true, false, ◌||◌, ◌&&◌, not, ◌==◌, string_equality, eqb, ◌≡◌, refl, ap,
  if◌then◌else◌, Option, none, some, List, [], ◌∷◌, ◌++◌, All-append,
}
use adscope_identity.Text.{truthy, trim}
use adscope_identity.Async.{start_task}
use adscope_identity.Types.{UserProfile, OidcFormField}
use adscope_identity.Oidc.{UrlParser, Unknown}
use adscope_identity.View.{Element, when, for_each}
use adscope_identity.View.Laws.{All-if, All-when, All-for_each, AllHeld, AllHeld-of_true}
use adscope_identity.View.Offers.{can_submit, can_decide}
use adscope_identity.UserApi.Offers.{
  agrees, can_answer, me_view-can_submit, login_view-can_submit, authorize_view-can_decide,
}
use adscope_identity.UserApi.State.{Store}
use adscope_identity.UserApi.{loading}
use adscope_identity.UserApi.Session.Entries.{
  IsEntry, starts_refs, starts_start_contact, starts_save_contact, starts_save_password,
  starts_exit_user, starts_submit_login, starts_load_authorization_context, starts_switch_account,
}
use adscope_identity.MePage.{open_password, contact_fields, password_mismatch}
use adscope_identity.MePage as Me
use adscope_identity.MePage.Programs.{close_contact, close_password}
use adscope_identity.MePage.View.{
  Intent as MeIntent, exits as me_exits, opens_contact, opens_password, closes_contact,
  closes_password, saves_contact, saves_password, changes as me_changes, perform as perform_me,
  view as me_view, user_shell, account, field_shown, contact_modal, password_modal,
}
use adscope_identity.LoginPage.View.{
  Intent as LoginIntent, exits as login_exits, signs_in, perform as perform_login,
  view as login_view, is_blocked,
}
use adscope_identity.AuthorizePage as Authorize
use adscope_identity.AuthorizePage.{Printer, OidcAuthorizationContext, claim_entries, form_fields}
use adscope_identity.AuthorizePage.View.{
  Intent as AuthorizeIntent, exits as authorize_exits, reads_again, switches,
  changes as authorize_changes, perform as perform_authorize, view as authorize_view, consent,
  consent_of, content, claim_shown, field_hidden, error_card,
}

perform_me-IsEntry :
    (new_url : UrlParser) (i : MeIntent) → IsEntry new_url (start_task (perform_me i))
unfolding perform_me
perform_me-IsEntry new_url me_exits = starts_exit_user
perform_me-IsEntry new_url opens_contact = starts_start_contact
perform_me-IsEntry new_url opens_password = starts_refs (λ r. record r { me = open_password r.me })
perform_me-IsEntry new_url closes_contact = starts_refs (λ r. record r { me = close_contact r.me })
perform_me-IsEntry new_url closes_password =
    starts_refs (λ r. record r { me = close_password r.me })
perform_me-IsEntry new_url saves_contact = starts_save_contact
perform_me-IsEntry new_url saves_password = starts_save_password

perform_login-IsEntry :
    (new_url : UrlParser) (i : LoginIntent) → IsEntry new_url (start_task (perform_login new_url i))
unfolding perform_login
perform_login-IsEntry new_url login_exits = starts_exit_user
perform_login-IsEntry new_url signs_in = starts_submit_login

perform_authorize-IsEntry :
    (new_url : UrlParser) (i : AuthorizeIntent) → IsEntry new_url (start_task (perform_authorize i))
unfolding perform_authorize
perform_authorize-IsEntry new_url authorize_exits = starts_exit_user
perform_authorize-IsEntry new_url reads_again = starts_load_authorization_context
perform_authorize-IsEntry new_url switches = starts_switch_account

module _ {I : Type 0} (changes : I → Bool) (menu : I) (e : changes menu ≡ false) where
  user_shell-AllHeld : (p : Option UserProfile) → AllHeld changes true (user_shell menu p)
  user_shell-AllHeld none = (refl, tt)
  user_shell-AllHeld (some p) = (refl, (refl, (rw e refl, tt)))

account-AllHeld : (p : Option UserProfile) → AllHeld me_changes true (account p)
unfolding account
account-AllHeld none = (refl, (refl, tt))
account-AllHeld (some p) = (
  refl,
  (
    refl,
    (
      refl,
      (
        refl,
        (
          refl,
          (
            refl,
            (
              refl,
              All-append _ (for_each (contact_fields (some p)) field_shown) _
                  (All-for_each _ (contact_fields (some p)) field_shown (λ field. (refl, tt)))
                  (refl, (refl, (refl, (refl, (refl, (refl, tt)))))),
            ),
          ),
        ),
      ),
    ),
  ),
)

contact_modal-AllHeld : (p : Me.Page) → p.saving ≡ true → AllHeld me_changes true (contact_modal p)
unfolding contact_modal
contact_modal-AllHeld p e =
    All-when _ p.contact_open _ (refl, (refl, (refl, (refl, (refl, (e, tt))))))

-- The second form is held back also by a mismatch of the two new passwords.
password_modal-AllHeld :
    (p : Me.Page)
    → (p.saving || password_mismatch p.password_form) ≡ true
    → AllHeld me_changes true (password_modal p)
unfolding password_modal
password_modal-AllHeld p e = All-when _ p.password_open _ (
  refl,
  (
    refl,
    (
      refl,
      (
        refl,
        (
          refl,
          All-append _ (when (password_mismatch p.password_form) _) _
              (All-when _ (password_mismatch p.password_form) _ (refl, tt)) (refl, (e, tt)),
        ),
      ),
    ),
  ),
)

me_view-AllHeld : (s : Store) → AllHeld me_changes s.refs.me.saving (me_view s)
unfolding me_view
me_view-AllHeld s = AllHeld-of_true me_changes s.refs.me.saving (me_view s) (λ e.
    All-append _ (user_shell me_exits s.profile) _
      (user_shell-AllHeld me_changes me_exits refl s.profile)
      (All-append _ (account s.profile) _ (account-AllHeld s.profile) (
        All-append _ (contact_modal s.refs.me) _ (contact_modal-AllHeld s.refs.me e)
          (password_modal-AllHeld s.refs.me (rw e refl)))))

consent-AllHeld :
    (printer : Printer) (b : Bool) (c : OidcAuthorizationContext)
    → b ≡ true
    → AllHeld authorize_changes true (consent printer b c)
unfolding consent
consent-AllHeld printer b c e = (
  refl,
  (
    refl,
    (
      refl,
      (
        refl,
        (
          refl,
          (
            refl,
            (
              refl,
              (
                refl,
                All-append _ (for_each (claim_entries (some c)) (claim_shown printer)) _
                    (All-for_each _ (claim_entries (some c)) (claim_shown printer)
                      (λ (name, value). (refl, tt)))
                    (All-append _ (for_each (form_fields (some c)) field_hidden) _
                      (All-for_each _ (form_fields (some c)) field_hidden (λ field. (refl, tt)))
                      (refl, (e, (e, (e, tt))))),
              ),
            ),
          ),
        ),
      ),
    ),
  ),
)

consent_of-AllHeld :
    (printer : Printer) (b : Bool) (c : Option OidcAuthorizationContext)
    → b ≡ true
    → AllHeld authorize_changes true (consent_of printer b c)
consent_of-AllHeld printer b none e = tt
consent_of-AllHeld printer b (some c) e = consent-AllHeld printer b c e

content-AllHeld :
    (printer : Printer) (p : Authorize.Page)
    → p.switching_account ≡ true
    → AllHeld authorize_changes true (content printer p)
unfolding content
content-AllHeld printer p e =
    All-if _ p.loading _ _ (refl, (refl, tt))
      (All-if _ (truthy p.error_message) (error_card p.error_message) _ (refl, (refl, (refl, tt)))
        (consent_of-AllHeld printer p.switching_account p.context e))

authorize_view-AllHeld :
    (printer : Printer) (s : Store)
    → AllHeld authorize_changes s.refs.authorize.switching_account (authorize_view printer s)
unfolding authorize_view
authorize_view-AllHeld printer s =
    AllHeld-of_true authorize_changes s.refs.authorize.switching_account (authorize_view printer s)
      (λ e.
        All-append _ (user_shell authorize_exits s.profile) _
          (user_shell-AllHeld authorize_changes authorize_exits refl s.profile)
          (content-AllHeld printer s.refs.authorize e))

-- A form of /me shows an enabled submit button exactly if it is open and no save runs; and that of the
-- password only if the two new passwords are equal, unless one of them is still empty. The button of the
-- login is enabled exactly if `pending` is 0, the password is not empty, and the user name is not but for
-- blanks. The buttons that confirm and that cancel a request for authorization are shown and enabled
-- exactly if its context was read, nothing is read, no message of a failure stands, and the account is
-- not being switched; and while it is, that of switching it again is disabled. While /me saves, every
-- button of it that would save is disabled. Each handler of the three pages starts one of the programs
-- of the session.
pub user_pages-IsGuarded :
    (new_url : UrlParser) (printer : Printer) (s : Store)
    → (can_submit "contact-form" (me_view s) ≡ (s.refs.me.contact_open && not s.refs.me.saving))
      × (can_submit "password-form" (me_view s)
          ≡ (s.refs.me.password_open && not s.refs.me.saving && agrees s.refs.me.password_form))
      × (can_submit "" (login_view s) ≡ (
          eqb s.pending 0
          && not (trim s.refs.login.username == "")
          && not (s.refs.login.password == "")))
      × (can_decide "approve" (authorize_view printer s) ≡ can_answer s.refs.authorize)
      × (can_decide "cancel" (authorize_view printer s) ≡ can_answer s.refs.authorize)
      × AllHeld authorize_changes s.refs.authorize.switching_account (authorize_view printer s)
      × AllHeld me_changes s.refs.me.saving (me_view s)
      × ((i : MeIntent) → IsEntry new_url (start_task (perform_me i)))
      × ((i : LoginIntent) → IsEntry new_url (start_task (perform_login new_url i)))
      × ((i : AuthorizeIntent) → IsEntry new_url (start_task (perform_authorize i)))
user_pages-IsGuarded new_url printer s =
    let (contact, password) = me_view-can_submit s in
    (
      contact,
      password,
      login_view-can_submit s,
      authorize_view-can_decide "approve" printer s refl,
      authorize_view-can_decide "cancel" printer s refl,
      authorize_view-AllHeld printer s,
      me_view-AllHeld s,
      perform_me-IsEntry new_url,
      perform_login-IsEntry new_url,
      perform_authorize-IsEntry new_url,
    )
