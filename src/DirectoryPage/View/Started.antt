-- ===== src/DirectoryPage/View/Started.antt =====
-- What the handlers of portal/web/app/pages/admin/directory.vue start.
use adscope_identity.Prelude.{string_equality, false, none, some}
use adscope_identity.Async.{start_task}
use adscope_identity.AdminApi.{Platform}
use adscope_identity.AdminApi.Session.Entries.{
  IsEntry, starts_edit_ou_node, starts_refresh_directory, starts_refs, starts_remove_ou_node,
  starts_remove_user, starts_reset_user_password, starts_save_group, starts_save_ou,
  starts_save_user, starts_start_user_editor,
}
use adscope_identity.DirectoryPage.View.{
  perform, refreshes, creates_ou, creates_user, creates_group, closes_editor, closes_reset,
  saves_ou, saves_user, saves_group, resets, edits_ou, removes_ou, edits_user, asks_reset,
  removes_user, edits_group,
}
use adscope_identity.DirectoryPage.{
  open_ou_editor, open_group_editor, set_editor_open, open_reset_password, set_reset_password_open,
}
use adscope_identity.AdminApi.State.{Store}
use adscope_identity.DirectoryPage.View.{Intent, changes}
use adscope_identity.AdminApi.Reading.{StaysReading, changing-StaysReading, reading-StaysReading}
use adscope_identity.AdminApi.Reading.Operations.{
  edit_ou_node-Reads, refresh_directory-Reads, start_user_editor-Reads,
}

pub perform-IsEntry :
    (platform : Platform) (i : Intent) → IsEntry platform (start_task (perform platform i))
unfolding perform
perform-IsEntry platform refreshes = starts_refresh_directory
perform-IsEntry platform creates_ou =
    starts_refs
      (λ r. record r { directory = open_ou_editor none r.directory.selected_ou_id r.directory })
perform-IsEntry platform creates_user = starts_start_user_editor none
perform-IsEntry platform creates_group =
    starts_refs (λ r. record r { directory = open_group_editor none r.directory })
perform-IsEntry platform closes_editor =
    starts_refs (λ r. record r { directory = set_editor_open false r.directory })
perform-IsEntry platform closes_reset =
    starts_refs (λ r. record r { directory = set_reset_password_open false r.directory })
perform-IsEntry platform saves_ou = starts_save_ou
perform-IsEntry platform saves_user = starts_save_user
perform-IsEntry platform saves_group = starts_save_group
perform-IsEntry platform resets = starts_reset_user_password
perform-IsEntry platform (edits_ou key) = starts_edit_ou_node key
perform-IsEntry platform (removes_ou key) = starts_remove_ou_node key
perform-IsEntry platform (edits_user user) = starts_start_user_editor (some user)
perform-IsEntry platform (asks_reset user) =
    starts_refs (λ r. record r { directory = open_reset_password user r.directory })
perform-IsEntry platform (removes_user user) = starts_remove_user user
perform-IsEntry platform (edits_group group) =
    starts_refs (λ r. record r { directory = open_group_editor (some group) r.directory })

-- The handler starts a program that sends only requests with the method `GET`, unless `changes` has it.
pub perform-StaysReading :
    (platform : Platform) (i : Intent) (s : Store)
    → StaysReading (changes i) (start_task (perform platform i)) s
unfolding perform
perform-StaysReading platform refreshes s =
    reading-StaysReading _ s (refresh_directory-Reads platform)
perform-StaysReading platform creates_ou s = tt
perform-StaysReading platform creates_user s =
    reading-StaysReading _ s (start_user_editor-Reads platform none)
perform-StaysReading platform creates_group s = tt
perform-StaysReading platform closes_editor s = tt
perform-StaysReading platform closes_reset s = tt
perform-StaysReading platform saves_ou s =
    changing-StaysReading (start_task (perform platform saves_ou)) s
perform-StaysReading platform saves_user s =
    changing-StaysReading (start_task (perform platform saves_user)) s
perform-StaysReading platform saves_group s =
    changing-StaysReading (start_task (perform platform saves_group)) s
perform-StaysReading platform resets s =
    changing-StaysReading (start_task (perform platform resets)) s
perform-StaysReading platform (edits_ou key) s = reading-StaysReading _ s (edit_ou_node-Reads key)
perform-StaysReading platform (removes_ou key) s =
    changing-StaysReading (start_task (perform platform (removes_ou key))) s
perform-StaysReading platform (edits_user user) s =
    reading-StaysReading _ s (start_user_editor-Reads platform (some user))
perform-StaysReading platform (asks_reset user) s = tt
perform-StaysReading platform (removes_user user) s =
    changing-StaysReading (start_task (perform platform (removes_user user))) s
perform-StaysReading platform (edits_group group) s = tt
