-- ===== src/LoginPage/View.antt =====
-- What portal/web/app/pages/login.vue shows.
use adscope_identity.Prelude.{Bool, true, false, not, ◌||◌, List, [], ◌∷◌, ◌++◌}
use adscope_identity.Text.{truthy, trim}
use adscope_identity.Oidc.{UrlParser}
use adscope_identity.View.{Element, title, words, form, submit, input}
use adscope_identity.UserApi.State.{Store}
use adscope_identity.UserApi.{Action, loading}
use adscope_identity.LoginPage.{Page}
use adscope_identity.LoginPage.Programs.{submit_login}
use adscope_identity.MePage.Programs.{exit_user}
use adscope_identity.MePage.View.{user_shell}

-- What the handlers of the template do.
pub data Intent : Type 0 where
  exits signs_in : Intent

unfoldable pub perform : UrlParser → Intent → Action (Unit {0})
perform new_url exits = exit_user
perform new_url signs_in = submit_login new_url

-- When the button is disabled, for the value of `loading`.
abbrev pub is_blocked : Bool → Page → Bool
is_blocked loading p = loading || not (truthy (trim p.username)) || not (truthy p.password)

unfoldable pub view : Store → List (Element Intent)
view s =
    let p = s.refs.login in
    user_shell exits s.profile
    ++ (title "用户登录"
        ∷ form "" signs_in
        ∷ words "使用中心账号登录，查看本人资料、维护联系方式和密码。"
        ∷ input "用户名" p.username true false
        ∷ input "密码" p.password true false
        ∷ submit "登录" (is_blocked (loading s) p) ""
        ∷ [])
