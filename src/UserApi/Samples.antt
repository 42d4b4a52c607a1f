-- ===== src/UserApi/Samples.antt =====
-- Concrete stores and machines of the user's pages.
use adscope_identity.Prelude.{true, false, none, some, [], ◌++◌}
use adscope_identity.Async.{Proc}
use adscope_identity.Async.Machine.{Machine, run, threads_of}
use adscope_identity.Oidc.{UrlParser, other}
use adscope_identity.LoginPage.{Location}
use adscope_identity.UserApi.State.{Refs, Store, Call, Value}

abbrev pub here_now : Location
here_now = record { search = ""; continue_query = other; origin = "https://portal"; assigned = [] }

-- No page is used yet.
abbrev pub idle : Refs
idle = record {
  me = record {
    contact_open = false;
    password_open = false;
    saving = false;
    contact_form = record { email = ""; mobile = "" };
    password_form = record { current_password = ""; new_password = ""; confirm_password = "" };
  };
  login = record { username = ""; password = "" };
  authorize = record {
    context = none;
    loading = true;
    switching_account = false;
    error_message = "";
    request_generation = 0;
  };
}

-- A browser that reads no URL.
abbrev pub parser : UrlParser
parser a b = none

abbrev pub launched : Proc Store Call Value → Machine Store Call Value → Machine Store Call Value
launched p m = record {
  state = (run p m.state).state;
  threads = threads_of (run p m.state) ++ m.threads;
}

-- A page that is opened with a token.
abbrev pub opened_page : Store
opened_page = record {
  access_token = "abc";
  profile = none;
  pending = 0;
  stored_token = some "abc";
  notices = [];
  refs = idle;
  location = here_now;
}
