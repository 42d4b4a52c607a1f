-- ===== src/DirectoryPage/Unchanged.antt =====
-- Units and users that are opened in their editors and saved without a change.
use adscope_identity.Prelude.{String, ◌≡◌, refl, Option, none, some, or_else}
use adscope_identity.Types.{OrganizationalUnit, UserRecord}
use adscope_identity.Forms.{nullable}
use adscope_identity.Forms.Laws.{IsProper, nullable-or_else}
use adscope_identity.DirectoryPage.{Page, open_ou_editor, open_user_editor}
use adscope_identity.DirectoryPage.Requests.{UserPayload, ou_payload, user_payload}

-- The data of a user that a save may change.
abbrev pub profile_of : UserRecord → UserPayload
profile_of user = record {
  username = user.username;
  display_name = user.display_name;
  surname = user.surname;
  given_name = user.given_name;
  email = user.email;
  mobile = user.mobile;
  organizational_unit_id = user.organizational_unit_id;
  status = user.status;
}

-- A user whose address and number are missing, or trimmed and not empty: if the user is opened in the
-- editor and saved as it is, then the request sends the user's own data to the user's own identifier.
pub open_user_editor-unchanged :
    (user : UserRecord) (p : Page)
    → IsProper user.email
    → IsProper user.mobile
    → (user_payload (open_user_editor (some user) user.employee_id p).user_form ≡ profile_of user)
      × ((open_user_editor (some user) user.employee_id p).editing_user_id ≡ some user.employee_id)
unfolding open_user_editor user_payload
open_user_editor-unchanged user p h k =
    (rw (nullable-or_else user.email h, nullable-or_else user.mobile k) refl, refl)

-- The unit's own parent, or else the given one.
abbrev pub parent_or : Option String → Option String → Option String
parent_or none other = other
parent_or (some id) other = some id

-- If a unit is opened in the editor and saved as it is, then the request sends its own name and its own
-- parent if it has one; a unit without a parent is sent with the selected unit as its parent. The
-- identifiers are trimmed and not empty.
pub open_ou_editor-parent :
    (ou : OrganizationalUnit) (p : Page)
    → IsProper ou.parent_id
    → IsProper p.selected_ou_id
    → ou_payload (open_ou_editor (some ou) p.selected_ou_id p).ou_form
      ≡ record { name = ou.name; parent_id = parent_or ou.parent_id p.selected_ou_id }
unfolding open_ou_editor ou_payload
open_ou_editor-parent ou p h k = rw (nullable-parent ou.parent_id p.selected_ou_id h k) refl
  where
    nullable-parent :
        (own other : Option String)
        → IsProper own
        → IsProper other
        → nullable (or_else own (or_else other "")) ≡ parent_or own other
    nullable-parent none other i j = nullable-or_else other j
    nullable-parent (some t) other i j = nullable-or_else (some t) i
