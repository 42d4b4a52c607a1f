-- ===== src/DirectoryPage/Tests.antt =====
-- The page of the directory with concrete data.
use adscope_identity.Prelude.{false, ◌≡◌, refl, ◌⊎◌, inl, none, some, [], ◌∷◌}
use adscope_identity.Text.{trim, trim_start, trim_end, blank, keep_end}
use adscope_identity.Types.{OrganizationalUnit, UserRecord, GroupRecord, active}
use adscope_identity.Forms.{split_members, blank_ou_form, blank_user_form, blank_group_form}
use adscope_identity.DirectoryPage.{
  Page, group_editor, open_ou_editor, open_user_editor, open_group_editor, set_editor_open, find_ou,
  reselect, is_in_use,
}
use adscope_identity.DirectoryPage.Requests.{ou_payload, user_payload}
use adscope_identity.DirectoryPage.Unchanged.{
  profile_of, open_user_editor-unchanged, open_ou_editor-parent,
}
use adscope_identity.Async.{start_task}
use adscope_identity.Async.Sends.{Sends, at, reads}
use adscope_identity.AdminApi.State.{confirm}
use adscope_identity.AdminApi.Samples.{browser, signed_in}
use adscope_identity.AdminApi.Session.{weight}
use adscope_identity.DirectoryPage.Removals.{remove_ou}
use adscope_identity.DirectoryPage.Guards.{IsEmpty, Anything, remove_ou-IsEmpty}
use adscope_identity.DirectoryPage.Samples.{no_order, units}
use adscope_identity.DirectoryPage.Selection.{IsSelection, reselect-settles}
use adscope_identity.DirectoryPage.Editors.{
  IsExclusive, edits_ou, opens_ou, opens_group, sets_editor, start, next, Reach-IsExclusive,
  open_group_editor-members,
}

-- The unit that was selected has been removed.
reselect-settles_example :
    IsSelection units (reselect no_order units (some "gone"))
    × ((find_ou (some "gone") units ≡ none) ⊎ (reselect no_order units (some "gone") ≡ some "gone"))
    × (reselect no_order units (reselect no_order units (some "gone"))
        ≡ reselect no_order units (some "gone"))
reselect-settles_example = reselect-settles no_order units (some "gone")

abbrev opened : Page
opened = record {
  selected_ou_id = some "it";
  editor = none;
  saving = false;
  editing_ou_id = none;
  editing_user_id = none;
  editing_group_id = none;
  ou_form = blank_ou_form;
  user_form = blank_user_form;
  group_form = blank_group_form;
  reset_password_target = none;
  reset_password_value = "";
}

abbrev admins : GroupRecord
admins = record {
  id = "admins";
  name = "Administrators";
  organizational_unit_id = "it";
  member_employee_ids = "1001" ∷ "1002" ∷ [];
  changed_revision = 3;
}

abbrev edited : Page
edited = open_group_editor (some admins) (open_ou_editor none none opened)

Reach-IsExclusive_example : IsExclusive (set_editor_open false edited)
Reach-IsExclusive_example =
    Reach-IsExclusive opened (set_editor_open false edited) (edits_ou refl refl (inl refl)) (
      next
        (next (next start (opens_ou none none opened))
          (opens_group (some admins) (open_ou_editor none none opened)))
        (sets_editor false edited))

open_group_editor-members_example :
    (split_members (open_group_editor (some admins) opened).group_form.member_employee_ids
      ≡ "1001" ∷ "1002" ∷ [])
    × ((open_group_editor (some admins) opened).editing_group_id ≡ some "admins")
    × ((open_group_editor (some admins) opened).editor ≡ some group_editor)
unfolding trim trim_start trim_end blank keep_end
open_group_editor-members_example =
    open_group_editor-members admins opened ((refl, refl), ((refl, refl), tt)) (refl, (refl, tt))

abbrev ada : UserRecord
ada = record {
  employee_id = "1001";
  username = "ada";
  display_name = "Ada";
  surname = "Lovelace";
  given_name = "Ada";
  email = some "ada@example.com";
  mobile = none;
  telephone = none;
  organizational_unit_id = "it";
  status = active;
}

open_user_editor-unchanged_example :
    (user_payload (open_user_editor (some ada) "1001" opened).user_form ≡ profile_of ada)
    × ((open_user_editor (some ada) "1001" opened).editing_user_id ≡ some "1001")
unfolding trim trim_start trim_end blank keep_end
open_user_editor-unchanged_example = open_user_editor-unchanged ada opened (refl, refl) tt

abbrev root : OrganizationalUnit
root = record { id = "hq"; name = "Headquarters"; parent_id = none; changed_revision = 1 }

-- A root unit becomes a child of the unit that is selected.
open_ou_editor-parent_example :
    ou_payload (open_ou_editor (some root) (some "it") opened).ou_form
    ≡ record { name = "Headquarters"; parent_id = some "it" }
unfolding trim trim_start trim_end blank keep_end
open_ou_editor-parent_example = open_ou_editor-parent root opened tt (refl, refl)

-- The removal of an empty unit asks first.
remove_ou_asks :
    Sends weight Anything
      (start_task (remove_ou browser root))
      signed_in
      (confirm "删除 Headquarters？")
      signed_in
unfolding remove_ou is_in_use
remove_ou_asks = reads _ _ _ _ (at _ _ _)

remove_ou-IsEmpty_example : IsEmpty root signed_in.content
remove_ou-IsEmpty_example =
    remove_ou-IsEmpty browser root signed_in (confirm "删除 Headquarters？") signed_in remove_ou_asks
