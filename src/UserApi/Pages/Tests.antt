-- ===== src/UserApi/Pages/Tests.antt =====
-- The pages of the user while one saves, one waits and one switches the account.
use adscope_identity.Prelude.{true, false, none, ◌≡◌}
use adscope_identity.Async.{start_task}
use adscope_identity.View.Offers.{can_submit, can_decide}
use adscope_identity.View.Laws.{AllHeld}
use adscope_identity.UserApi.State.{Store}
use adscope_identity.UserApi.Samples.{parser, opened_page, idle}
use adscope_identity.UserApi.Session.Entries.{IsEntry}
use adscope_identity.MePage.View.{
  Intent as MeIntent, changes as me_changes, perform as perform_me, view as me_view,
}
use adscope_identity.LoginPage.View.{
  Intent as LoginIntent, perform as perform_login, view as login_view,
}
use adscope_identity.AuthorizePage.{Printer}
use adscope_identity.AuthorizePage.View.{
  Intent as AuthorizeIntent, changes as authorize_changes, perform as perform_authorize,
  view as authorize_view,
}
use adscope_identity.UserApi.Pages.{user_pages-IsGuarded}

abbrev printer : Printer
printer = record { json_stringify = λ v. none; to_text = λ v. "" }

abbrev occupied : Store
occupied = record opened_page {
  pending = 1;
  refs = record idle {
    me = record idle.me {
      saving = true;
      password_open = true;
      password_form = record { current_password = "a"; new_password = "b"; confirm_password = "c" };
    };
    authorize = record idle.authorize { loading = false; switching_account = true };
  };
}

user_pages-IsGuarded_example :
    (can_submit "contact-form" (me_view occupied) ≡ false)
    × (can_submit "password-form" (me_view occupied) ≡ false)
    × (can_submit "" (login_view occupied) ≡ false)
    × (can_decide "approve" (authorize_view printer occupied) ≡ false)
    × (can_decide "cancel" (authorize_view printer occupied) ≡ false)
    × AllHeld authorize_changes true (authorize_view printer occupied)
    × AllHeld me_changes true (me_view occupied)
    × ((i : MeIntent) → IsEntry parser (start_task (perform_me i)))
    × ((i : LoginIntent) → IsEntry parser (start_task (perform_login parser i)))
    × ((i : AuthorizeIntent) → IsEntry parser (start_task (perform_authorize i)))
user_pages-IsGuarded_example = user_pages-IsGuarded parser printer occupied
