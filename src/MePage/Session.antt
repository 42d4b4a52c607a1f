-- ===== src/MePage/Session.antt =====
-- The programs of the page and the invariant of the user session.
use adscope_identity.Prelude.{Bool, true, false, ◌||◌}
use adscope_identity.Text.{truthy}
use adscope_identity.Forms.{nullable}
use adscope_identity.UserApi.{Action}
use adscope_identity.UserApi.Session.{
  KeepsSession, Preserves, write_refs-Preserves, in_turn, gives, either, afterwards, changes, reads,
  navigate-Keeps,
}
use adscope_identity.UserApi.Session.Operations.{
  load_token-Keeps, load_me-Keeps, logout-Keeps, update_contact-Keeps, change_password-Keeps,
}
use adscope_identity.MePage.{Page, password_mismatch, open_contact}
use adscope_identity.MePage.Programs.{
  on_page, start_contact, set_saving, close_contact, close_password, login_target, while_saving,
  mounted, save_contact, save_password, exit_user,
}

on_page-Preserves : (f : Page → Page) → Preserves (on_page f)
on_page-Preserves f = write_refs-Preserves (λ r. record r { me = f r.me })

while_saving-Keeps :
    (t : Action Bool) (close : Page → Page)
    → KeepsSession 0 t
    → KeepsSession 0 (while_saving t close)
while_saving-Keeps t close h = in_turn (changes (on_page-Preserves (set_saving true))) (λ _.
    afterwards (in_turn h (λ done. either done (changes (on_page-Preserves close)) (gives tt)))
      (on_page-Preserves (set_saving false)))

pub mounted-Keeps : KeepsSession 0 mounted
unfolding mounted
mounted-Keeps = in_turn load_token-Keeps (λ stored.
    either (truthy stored)
      (in_turn (load_me-Keeps false)
        (λ valid. either valid (gives tt) (navigate-Keeps 0 login_target)))
      (navigate-Keeps 0 login_target))

pub start_contact-Keeps : KeepsSession 0 start_contact
unfolding start_contact
start_contact-Keeps = changes (λ n s h. on_page-Preserves (open_contact s.profile) n s h)

pub save_contact-Keeps : KeepsSession 0 save_contact
unfolding save_contact
save_contact-Keeps = reads (λ s. either s.refs.me.saving (gives tt) (
    while_saving-Keeps _ close_contact (
      update_contact-Keeps (nullable s.refs.me.contact_form.email)
        (nullable s.refs.me.contact_form.mobile))))

pub save_password-Keeps : KeepsSession 0 save_password
unfolding save_password
save_password-Keeps = reads (λ s.
    either (s.refs.me.saving || password_mismatch s.refs.me.password_form) (gives tt) (
      while_saving-Keeps _ close_password (
        change_password-Keeps s.refs.me.password_form.current_password
          s.refs.me.password_form.new_password)))

pub exit_user-Keeps : KeepsSession 0 exit_user
unfolding exit_user
exit_user-Keeps = in_turn (logout-Keeps true) (λ _. navigate-Keeps 0 login_target)
