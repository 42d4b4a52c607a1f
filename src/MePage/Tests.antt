-- ===== src/MePage/Tests.antt =====
-- Concrete runs of the page.
use adscope_identity.Prelude.{refl, none, some}
use adscope_identity.Async.{start_task}
use adscope_identity.Async.Machine.{Machine, Reach, start, next, launch, all_held}
use adscope_identity.Types.{UserProfile, active}
use adscope_identity.UserApi.State.{Store, Call, Value}
use adscope_identity.UserApi.Samples.{opened_page, launched}
use adscope_identity.MePage.Programs.{save_contact, save_password}
use adscope_identity.MePage.Saving.{weight, IsSaving}
use adscope_identity.MePage.Saving.Reachable.{
  IsEntry, waiting, starts_save_contact, starts_save_password, Reach-IsSaving,
}

-- A save of the contact data, during which the user asks for one of the password.
abbrev saved : Machine Store Call Value
saved = launched (start_task save_contact) (waiting opened_page)

abbrev saved_twice : Machine Store Call Value
saved_twice = launched (start_task save_password) saved

saved_twice_reached : Reach IsEntry (waiting opened_page) saved_twice
saved_twice_reached =
    next (next start (launch (start_task save_contact) (waiting opened_page) starts_save_contact))
      (launch (start_task save_password) saved starts_save_password)

Reach-IsSaving_example : IsSaving (all_held weight saved_twice.threads) saved_twice.state
Reach-IsSaving_example = Reach-IsSaving opened_page saved_twice refl saved_twice_reached

abbrev ada : UserProfile
ada = record {
  employee_id = "1001";
  username = "ada";
  display_name = "Ada";
  surname = "Lovelace";
  given_name = "Ada";
  email = some "ada@example.com";
  mobile = none;
  telephone = none;
  organizational_unit_id = "it";
  status = active;
}

abbrev signed_in : Store
signed_in = record opened_page { profile = some ada }
