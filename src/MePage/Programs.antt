-- ===== src/MePage/Programs.antt =====
-- portal/web/app/pages/me.vue: what the page does with the server; and `exitUser` of
-- portal/web/app/components/user/UserShell.vue.
use adscope_identity.Prelude.{Bool, true, false, ◌||◌, if◌then◌else◌, none}
use adscope_identity.Text.{truthy}
use adscope_identity.Forms.{nullable}
use adscope_identity.Async.{return, ◌>>=◌, ◌>>◌, finally, read, modify, call}
use adscope_identity.UserApi.State.{Store, Target, navigate}
use adscope_identity.UserApi.{
  Action, write_refs, load_token, load_me, logout, update_contact, change_password,
}
use adscope_identity.MePage.{Page, password_mismatch, open_contact}

abbrev pub on_page : (Page → Page) → Store → Store
on_page f = write_refs (λ r. record r { me = f r.me })

abbrev pub set_saving : Bool → Page → Page
set_saving b p = record p { saving = b }

abbrev pub close_contact : Page → Page
close_contact p = record p { contact_open = false }

abbrev pub close_password : Page → Page
close_password p = record p { password_open = false }

abbrev pub login_target : Target
login_target = record { path = "/login"; continue_to = none }

-- `saving.value = true; try { if (await t) { … } } finally { saving.value = false }`
abbrev pub while_saving : Action Bool → (Page → Page) → Action (Unit {0})
while_saving t close =
    modify (on_page (set_saving true))
    >> finally (t >>= λ done. if done then modify (on_page close) else return tt)
        (on_page (set_saving false))

-- The hook `onMounted`.
unfoldable pub mounted : Action (Unit {0})
mounted = do
  stored ← load_token
  if truthy stored
      then (do valid ← load_me false; if valid then return tt else call (navigate 0 login_target))
      else call (navigate 0 login_target)

-- `openContact`
unfoldable pub start_contact : Action (Unit {0})
start_contact = modify (λ s. on_page (open_contact s.profile) s)

unfoldable pub save_contact : Action (Unit {0})
save_contact = do
  s ← read
  if s.refs.me.saving
      then return tt
      else while_saving
          (update_contact (nullable s.refs.me.contact_form.email)
            (nullable s.refs.me.contact_form.mobile))
          close_contact

unfoldable pub save_password : Action (Unit {0})
save_password = do
  s ← read
  if s.refs.me.saving || password_mismatch s.refs.me.password_form
      then return tt
      else while_saving
          (change_password s.refs.me.password_form.current_password
            s.refs.me.password_form.new_password)
          close_password

-- `exitUser`
unfoldable pub exit_user : Action (Unit {0})
exit_user = do _ ← logout true; call (navigate 0 login_target)
