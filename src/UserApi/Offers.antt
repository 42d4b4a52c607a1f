-- ===== src/UserApi/Offers.antt =====
-- Which forms of the user's pages can be sent, and when.
use adscope_identity.Prelude.{
  ℕ, ap, Bool-cases, inl, inr, String, Bool, true, false, not, ◌&&◌, ◌||◌, ◌==◌, eqb, ltb,
  string_equality, ◌≡◌, ◌∙◌, refl, arith, Option, none, some,
}
use adscope_identity.Text.{truthy, trim}
use adscope_identity.Types.{UserProfile}
use adscope_identity.View.{for_each}
use adscope_identity.View.Offers.{
  submits, decides, can_submit, can_decide, any-append, any-after, any-for_each,
}
use adscope_identity.UserApi.State.{Store}
use adscope_identity.MePage as Me
use adscope_identity.MePage.{PasswordForm, password_mismatch, contact_fields}
use adscope_identity.MePage.View.{
  view as me_view, exits as me_exits, user_shell, account, contact_modal, password_modal,
}
use adscope_identity.LoginPage.View.{view as login_view, exits as login_exits}
use adscope_identity.AuthorizePage as Authorize
use adscope_identity.AuthorizePage.{Printer, OidcAuthorizationContext, claim_entries, form_fields}
use adscope_identity.AuthorizePage.View.{
  view as authorize_view, exits as authorize_exits, consent, consent_of, content, claim_shown,
  field_hidden,
}

truthy-not_empty : (s : String) → truthy s ≡ not (s == "")
truthy-not_empty String.[] = refl
truthy-not_empty (String.◌∷◌ c s) = elim (Bool-cases (String.◌∷◌ c s == "")) [
  | inl e ↦ absurd (cc (ap truthy ((string_equality.decides (String.◌∷◌ c s) "").0 e)))
  | inr e ↦ rw e refl
]

idle_none : (n : ℕ) → ltb 0 n ≡ not (eqb n 0)
idle_none n = ground arith

-- The two new passwords agree, as far as both are typed.
abbrev pub agrees : PasswordForm → Bool
agrees f =
    (f.new_password == "") || (f.confirm_password == "") || (f.new_password == f.confirm_password)

password_mismatch-agrees : (f : PasswordForm) → password_mismatch f ≡ not (agrees f)
unfolding password_mismatch
password_mismatch-agrees f =
    ground (arith, truthy-not_empty f.new_password, truthy-not_empty f.confirm_password)

user_shell-submits :
    {I : Type 0} (id : String) (menu : I) (p : Option UserProfile)
    → can_submit id (user_shell menu p) ≡ false
user_shell-submits id menu none = refl
user_shell-submits id menu (some p) = refl

user_shell-decides :
    {I : Type 0} (answer : String) (menu : I) (p : Option UserProfile)
    → can_decide answer (user_shell menu p) ≡ false
user_shell-decides answer menu none = refl
user_shell-decides answer menu (some p) = refl

account-submits : (id : String) (p : Option UserProfile) → can_submit id (account p) ≡ false
unfolding account contact_fields
account-submits id none = refl
account-submits id (some p) = refl

contact_modal-submits :
    (id : String) (p : Me.Page)
    → can_submit id (contact_modal p) ≡ (p.contact_open && ("contact-form" == id) && not p.saving)
unfolding contact_modal
contact_modal-submits id p = ground arith

password_modal-submits :
    (id : String) (p : Me.Page)
    → can_submit id (password_modal p)
      ≡ (p.password_open && ("password-form" == id) && not p.saving && agrees p.password_form)
unfolding password_modal
password_modal-submits id p = ground (arith, password_mismatch-agrees p.password_form)

me_view-submits :
    (id : String) (s : Store)
    → can_submit id (me_view s)
      ≡ (can_submit id (contact_modal s.refs.me) || can_submit id (password_modal s.refs.me))
unfolding me_view
me_view-submits id s =
    any-after (submits id) (user_shell me_exits s.profile) _
      (user_shell-submits id me_exits s.profile)
    ∙ any-after (submits id) (account s.profile) _ (account-submits id s.profile)
    ∙ any-append (submits id) (contact_modal s.refs.me) (password_modal s.refs.me)

-- The forms of /me.
pub me_view-can_submit :
    (s : Store)
    → (can_submit "contact-form" (me_view s) ≡ (s.refs.me.contact_open && not s.refs.me.saving))
      × (can_submit "password-form" (me_view s)
          ≡ (s.refs.me.password_open && not s.refs.me.saving && agrees s.refs.me.password_form))
me_view-can_submit s = (
  ground (
    arith,
    me_view-submits "contact-form" s,
    contact_modal-submits "contact-form" s.refs.me,
    password_modal-submits "contact-form" s.refs.me,
  ),
  ground (
    arith,
    me_view-submits "password-form" s,
    contact_modal-submits "password-form" s.refs.me,
    password_modal-submits "password-form" s.refs.me,
  ),
)

-- The form of the login.
pub login_view-can_submit :
    (s : Store)
    → can_submit "" (login_view s) ≡ (
        eqb s.pending 0
        && not (trim s.refs.login.username == "")
        && not (s.refs.login.password == ""))
unfolding login_view
login_view-can_submit s =
    any-after (submits "") (user_shell login_exits s.profile) _
      (user_shell-submits "" login_exits s.profile)
    ∙ ground (
      arith,
      idle_none s.pending,
      truthy-not_empty (trim s.refs.login.username),
      truthy-not_empty s.refs.login.password,
    )

abbrev pub has_context : Option OidcAuthorizationContext → Bool
has_context none = false
has_context (some context) = true

consent-decides :
    (answer : String) (printer : Printer) (b : Bool) (c : OidcAuthorizationContext)
    → can_decide answer (consent printer b c)
      ≡ ((("approve" == answer) || ("cancel" == answer)) && not b)
unfolding consent
consent-decides answer printer b c =
    any-after (decides answer) (for_each (claim_entries (some c)) (claim_shown printer)) _ (
      any-for_each (decides answer) (claim_entries (some c)) (claim_shown printer)
        (λ (name, value). refl))
    ∙ any-after (decides answer) (for_each (form_fields (some c)) field_hidden) _
        (any-for_each (decides answer) (form_fields (some c)) field_hidden (λ field. refl))
    ∙ ground arith

consent_of-decides :
    (answer : String) (printer : Printer) (b : Bool) (c : Option OidcAuthorizationContext)
    → can_decide answer (consent_of printer b c)
      ≡ (has_context c && (("approve" == answer) || ("cancel" == answer)) && not b)
consent_of-decides answer printer b none = refl
consent_of-decides answer printer b (some c) = consent-decides answer printer b c

-- The page shows an authorization request, which may be answered.
abbrev pub can_answer : Authorize.Page → Bool
can_answer p =
    has_context p.context && not p.loading && (p.error_message == "") && not p.switching_account

-- The two answers to an authorization request.
pub authorize_view-can_decide :
    (answer : String) (printer : Printer) (s : Store)
    → (("approve" == answer) || ("cancel" == answer)) ≡ true
    → can_decide answer (authorize_view printer s) ≡ can_answer s.refs.authorize
unfolding authorize_view content
authorize_view-can_decide answer printer s h =
    let p = s.refs.authorize in
    any-after (decides answer) (user_shell authorize_exits s.profile) _
      (user_shell-decides answer authorize_exits s.profile)
    ∙ ground (
      arith,
      truthy-not_empty p.error_message,
      consent_of-decides answer printer p.switching_account p.context,
    )
