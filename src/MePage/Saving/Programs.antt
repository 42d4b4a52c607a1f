-- ===== src/MePage/Saving/Programs.antt =====
-- The programs of the page, the flag `saving` and the requests that change the account.
use adscope_identity.Prelude.{
  ℕ, ◌+◌, String, Bool, true, false, ◌≡◌, refl, sym, ◌∙◌, inl, inr, Option, some, or_else,
  if◌then◌else◌, ◌||◌, not, arith,
}
use adscope_identity.Text.{truthy}
use adscope_identity.Forms.{nullable}
use adscope_identity.Async.{error, Outcome, ok, Proc, get, put}
use adscope_identity.Async.Rules.{Ensures}
use adscope_identity.Async.Triples.{Relies, if-Ensures}
use adscope_identity.UserApi.State.{
  Notice, success, failure, Store, Method, get_method, patch_method, post_method, Body, no_body,
  contact, passwords, Response, Payload, profile_payload, contact_payload, password_payload, Call,
  fetch, json, Value, navigate,
}
use adscope_identity.UserApi.{
  Action, is_ok, is_denied, status_message, request_error_message, clear, notify, token_ready,
  bearer_request, check_user_response, user_fetch, load_token, load_me, logout, logout_request,
  telephone_of, update_contact, change_password,
}
use adscope_identity.MePage.{Page, password_mismatch}
use adscope_identity.MePage.Programs.{
  on_page, set_saving, close_contact, close_password, login_target, while_saving, mounted,
  save_contact, save_password, exit_user,
}
use adscope_identity.MePage.Saving.{body_weight, payload_weight, weight, IsSaving, Allows}
use adscope_identity.MePage.Saving.Rules.{
  KeepsSaving, moved, in_turn, caught, gives, fails, either, after, reads, changes, calls, tracked,
}

check_user_response-KeepsSaving : (n : ℕ) (r : Response) → KeepsSaving n (check_user_response r)
unfolding check_user_response
check_user_response-KeepsSaving n r = either (is_ok r.status) (gives tt) (
    either (is_denied r.status)
      (in_turn (changes clear (λ s. refl)) (λ _. fails (error "登录已失效，请重新登录")))
      (fails (error (status_message r))))

user_fetch-KeepsSaving :
    (p : Payload) (path : String) (method : Method) (body : Body)
    → payload_weight p ≡ body_weight body
    → KeepsSaving (body_weight body) (user_fetch p path method body)
unfolding user_fetch
user_fetch-KeepsSaving p path method body e = reads (λ s.
    either (token_ready s)
      (tracked (body_weight body) _ (
        reads (λ u.
          in_turn
            (calls (fetch (bearer_request path method body u.access_token)) (body_weight body) refl)
            (λ r.
              in_turn (check_user_response-KeepsSaving (body_weight body) r)
                (λ _. calls (json p) (body_weight body) e)))))
      (fails (error "请先登录")))

update_contact-KeepsSaving :
    (email mobile : Option String) → KeepsSaving 1 (update_contact email mobile)
unfolding update_contact
update_contact-KeepsSaving email mobile =
    caught
      (reads (λ s.
        in_turn
          (user_fetch-KeepsSaving contact_payload "/api/me/contact" patch_method
            (contact email mobile (telephone_of s.profile)) refl)
          (λ r.
            in_turn
              (changes (λ s. notify (success "联系方式已保存") (record s { profile = some r.profile }))
                (λ s. refl))
              (λ _. gives true))))
      (λ e.
        in_turn (changes (notify (failure (request_error_message e "联系方式保存失败"))) (λ s. refl))
          (λ _. gives false))

change_password-KeepsSaving : (current next : String) → KeepsSaving 1 (change_password current next)
unfolding change_password
change_password-KeepsSaving current next =
    either (not (truthy current) || not (truthy next))
      (in_turn (changes (notify (failure "请输入当前密码和新密码")) (λ s. refl)) (λ _. gives false))
      (caught
        (in_turn
          (user_fetch-KeepsSaving password_payload "/api/me/password" post_method
            (passwords current next) refl)
          (λ _. in_turn (changes (notify (success "密码已修改")) (λ s. refl)) (λ _. gives true)))
        (λ e.
          in_turn (changes (notify (failure (request_error_message e "密码修改失败"))) (λ s. refl))
            (λ _. gives false)))

dropped_same :
    (m : Bool) (x : Notice) (s : Store)
    → (if m then notify x (clear s) else clear s).refs.me.saving ≡ s.refs.me.saving
dropped_same true x s = refl
dropped_same false x s = refl

load_me-KeepsSaving : (b : Bool) → KeepsSaving 0 (load_me b)
unfolding load_me
load_me-KeepsSaving b =
    caught
      (in_turn (user_fetch-KeepsSaving profile_payload "/api/me" get_method no_body refl)
        (λ p. in_turn (changes (λ s. record s { profile = some p }) (λ s. refl)) (λ _. gives true)))
      (λ e.
        in_turn
          (changes
            (λ s.
              if b
              then notify (failure (request_error_message e "无法读取用户资料")) (clear s)
              else clear s)
            (dropped_same b _))
          (λ _. gives false))

load_token-KeepsSaving : KeepsSaving 0 load_token
unfolding load_token
load_token-KeepsSaving = record {
  ensures = λ k h s b j.
      h (ok _) _ b (
        moved (λ s. record s { access_token = or_else s.stored_token "" }) (λ s. refl) (b + 0) s j);
}

pub mounted-KeepsSaving : KeepsSaving 0 mounted
unfolding mounted
mounted-KeepsSaving = in_turn load_token-KeepsSaving (λ stored.
    either (truthy stored)
      (in_turn (load_me-KeepsSaving false)
        (λ valid. either valid (gives tt) (calls (navigate 0 login_target) 0 refl)))
      (calls (navigate 0 login_target) 0 refl))

logout-KeepsSaving : (m : Bool) → KeepsSaving 0 (logout m)
unfolding logout
logout-KeepsSaving m =
    after (λ s. if m then notify (success "已退出登录") (clear s) else clear s) (dropped_same m _)
      (caught (in_turn (tracked 0 _ (calls (fetch logout_request) 0 refl)) (λ _. gives tt))
        (λ _. gives tt))

pub exit_user-KeepsSaving : KeepsSaving 0 exit_user
unfolding exit_user
exit_user-KeepsSaving =
    in_turn (logout-KeepsSaving true) (λ _. calls (navigate 0 login_target) 0 refl)

-- A save that starts while no other runs.
starts_alone :
    (b : ℕ) (s : Store)
    → s.refs.me.saving ≡ false
    → IsSaving (b + 0) s
    → IsSaving (b + 1) (on_page (set_saving true) s)
starts_alone b s idle (inl (busy, n)) = absurd (cc (sym busy ∙ idle))
starts_alone b s idle (inr (free, n)) = inl (refl, omega (arith, n))

ends_save :
    (b : ℕ) (s : Store) → IsSaving (b + 1) s → IsSaving (b + 0) (on_page (set_saving false) s)
ends_save b s (inl (busy, n)) = inr (refl, omega (arith, n))
ends_save b s (inr (free, n)) = absurd (omega (arith, n))

while_saving-Ensures :
    (t : Action Bool) (close : Page → Page)
    → ((p : Page) → (close p).saving ≡ p.saving)
    → KeepsSaving 1 t
    → (k : Outcome (Unit {0}) → Proc Store Call Value) → Relies weight IsSaving Allows 0 k
    → (s : Store) (b : ℕ) → s.refs.me.saving ≡ false
    → IsSaving (b + 0) s
    → Ensures weight IsSaving Allows b (while_saving t close k) s
while_saving-Ensures t close c ht k h s b idle j =
    (in_turn ht
        (λ done. either done (changes (on_page close) (λ u. c u.refs.me)) (gives tt))).ensures
      (λ o. get (λ u. put (on_page (set_saving false) u) (k o)))
      (λ o u d i. h o (on_page (set_saving false) u) d (ends_save d u i))
      (on_page (set_saving true) s) b (starts_alone b s idle j)

or-false : (a b : Bool) → (a || b) ≡ false → a ≡ false
or-false a b h = ground arith

pub save_contact-KeepsSaving : KeepsSaving 0 save_contact
unfolding save_contact
save_contact-KeepsSaving = record {
  ensures = λ k h s b j.
      if-Ensures weight IsSaving Allows s.refs.me.saving _ _ k s b (λ busy. h (ok tt) s b j)
        (λ idle.
          while_saving-Ensures _ close_contact (λ p. refl)
            (update_contact-KeepsSaving (nullable s.refs.me.contact_form.email)
              (nullable s.refs.me.contact_form.mobile))
            k h s b idle j);
}

pub save_password-KeepsSaving : KeepsSaving 0 save_password
unfolding save_password
save_password-KeepsSaving = record {
  ensures = λ k h s b j.
      if-Ensures weight IsSaving Allows
        (s.refs.me.saving || password_mismatch s.refs.me.password_form) _ _ k s b
        (λ busy. h (ok tt) s b j)
        (λ idle.
          while_saving-Ensures _ close_password (λ p. refl)
            (change_password-KeepsSaving s.refs.me.password_form.current_password
              s.refs.me.password_form.new_password)
            k h s b (or-false s.refs.me.saving (password_mismatch s.refs.me.password_form) idle) j);
}
