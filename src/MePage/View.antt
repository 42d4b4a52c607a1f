-- ===== src/MePage/View.antt =====
-- What portal/web/app/pages/me.vue shows, in the frame
-- portal/web/app/components/user/UserShell.vue of the user's pages.
use adscope_identity.Prelude.{Bool, true, false, ◌||◌, Option, none, some, List, [], ◌∷◌, ◌++◌}
use adscope_identity.Types.{UserProfile}
use adscope_identity.Async.{modify}
use adscope_identity.View.{
  Element, title, words, button, form, submit, input, plain_row, when, for_each,
}
use adscope_identity.UserApi.State.{Store}
use adscope_identity.UserApi.{Action}
use adscope_identity.MePage.{
  Page, ContactField, display_name, contact_fields, password_mismatch, open_password,
}
use adscope_identity.MePage.Programs.{
  on_page, start_contact, close_contact, close_password, save_contact, save_password, exit_user,
}

-- What the handlers of the template do.
pub data Intent : Type 0 where
  exits opens_contact opens_password closes_contact closes_password : Intent
  saves_contact saves_password : Intent

-- Whether a handler changes the account.
abbrev pub changes : Intent → Bool
changes saves_contact = true
changes saves_password = true
changes _ = false

unfoldable pub perform : Intent → Action (Unit {0})
perform exits = exit_user
perform opens_contact = start_contact
perform opens_password = modify (on_page open_password)
perform closes_contact = modify (on_page close_contact)
perform closes_password = modify (on_page close_password)
perform saves_contact = save_contact
perform saves_password = save_password

-- The navigation bar of `UserShell`: the menu of the user, where `menu` is its handler.
abbrev pub user_shell : {I : Type 0} → I → Option UserProfile → List (Element I)
user_shell menu none = title "Adscope Portal" ∷ []
user_shell menu (some profile) =
    title "Adscope Portal" ∷ words (display_name (some profile)) ∷ button "退出登录" false menu ∷ []

abbrev pub field_shown : ContactField → List (Element Intent)
field_shown field = plain_row (field.label ∷ field.value ∷ []) ∷ []

-- The cards of the account, or the sign that it is loaded.
unfoldable pub account : Option UserProfile → List (Element Intent)
account none = title "我的账号" ∷ words "正在加载账号信息" ∷ []
account (some profile) =
    title "我的账号"
      ∷ title (display_name (some profile))
      ∷ words profile.username
      ∷ words "所属组织"
      ∷ words profile.organizational_unit_id
      ∷ title "联系方式"
      ∷ button "编辑" false opens_contact
      ∷ for_each (contact_fields (some profile)) field_shown
    ++ (title "账号安全"
        ∷ words "登录密码"
        ∷ words "已设置"
        ∷ words "用于登录 Adscope Portal。"
        ∷ button "修改密码" false opens_password
        ∷ words "用户名和所属组织单元由管理员维护；联系方式可自行修改。"
        ∷ [])

unfoldable pub contact_modal : Page → List (Element Intent)
contact_modal p = when p.contact_open (
    title "编辑联系方式"
    ∷ form "contact-form" saves_contact
    ∷ input "邮箱" p.contact_form.email false false
    ∷ input "手机" p.contact_form.mobile false false
    ∷ button "取消" p.saving closes_contact
    ∷ submit "保存" p.saving "contact-form"
    ∷ [])

unfoldable pub password_modal : Page → List (Element Intent)
password_modal p = when p.password_open (
    title "修改密码"
      ∷ form "password-form" saves_password
      ∷ input "当前密码" p.password_form.current_password false false
      ∷ input "新密码" p.password_form.new_password false false
      ∷ input "确认新密码" p.password_form.confirm_password false false
      ∷ when (password_mismatch p.password_form) (words "两次输入的新密码不一致" ∷ [])
    ++ (button "取消" p.saving closes_password
        ∷ submit "确认修改" (p.saving || password_mismatch p.password_form) "password-form"
        ∷ []))

unfoldable pub view : Store → List (Element Intent)
view s =
    user_shell exits s.profile
    ++ (account s.profile ++ (contact_modal s.refs.me ++ password_modal s.refs.me))
