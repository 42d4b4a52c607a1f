-- ===== src/DirectoryPage/Editors.antt =====
-- The editors of the page: which one is open, and what they send back unchanged.
use adscope_identity.Prelude.{
  String, Bool, true, false, ◌≡◌, refl, ◌∙◌, ◌⊎◌, inl, inr, Option, none, some, if◌then◌else◌, not,
  ◌&&◌, All,
}
use adscope_identity.Text.{truthy}
use adscope_identity.Text.Split.{IsPart}
use adscope_identity.Types.{OrganizationalUnit, UserRecord, GroupRecord}
use adscope_identity.Forms.{split_members}
use adscope_identity.Forms.Laws.{split_members-join}
use adscope_identity.DirectoryPage.{
  Page, EditorKey, ou_editor, user_editor, group_editor, open_ou_editor, open_user_editor,
  open_group_editor, open_reset_password, set_editor_open, set_reset_password_open, is_given,
  is_chosen,
}

-- At most one record is edited; its editor is the only one that may be open.
pub data IsExclusive (p : Page) : Type 0 where
  edits_ou :
      p.editing_user_id ≡ none
      → p.editing_group_id ≡ none
      → (p.editor ≡ none) ⊎ (p.editor ≡ some ou_editor)
      → IsExclusive p
  edits_user :
      p.editing_ou_id ≡ none
      → p.editing_group_id ≡ none
      → (p.editor ≡ none) ⊎ (p.editor ≡ some user_editor)
      → IsExclusive p
  edits_group :
      p.editing_ou_id ≡ none
      → p.editing_user_id ≡ none
      → (p.editor ≡ none) ⊎ (p.editor ≡ some group_editor)
      → IsExclusive p

-- The changes that the user makes on the page between its requests.
pub data Step : Page → Page → Type 0 where
  opens_ou :
      (ou : Option OrganizationalUnit) (parent_id : Option String) (p : Page)
      → Step p (open_ou_editor ou parent_id p)
  opens_user :
      (user : Option UserRecord) (employee_id : String) (p : Page)
      → Step p (open_user_editor user employee_id p)
  opens_group : (group : Option GroupRecord) (p : Page) → Step p (open_group_editor group p)
  sets_editor : (value : Bool) (p : Page) → Step p (set_editor_open value p)
  opens_reset : (user : UserRecord) (p : Page) → Step p (open_reset_password user p)
  sets_reset : (value : Bool) (p : Page) → Step p (set_reset_password_open value p)
  selects : (id : Option String) (p : Page) → Step p (record p { selected_ou_id = id })
  saves : (b : Bool) (p : Page) → Step p (record p { saving = b })

pub data Reach (p : Page) : Page → Type 0 where
  start : Reach p p
  next : {q r : Page} → Reach p q → Step q r → Reach p r

still : {e f x : Option EditorKey} → f ≡ e → (e ≡ none) ⊎ (e ≡ x) → (f ≡ none) ⊎ (f ≡ x)
still d (inl z) = inl (d ∙ z)
still d (inr z) = inr (d ∙ z)

-- Changes of other refs.
same-IsExclusive :
    (p q : Page)
    → q.editing_ou_id ≡ p.editing_ou_id
    → q.editing_user_id ≡ p.editing_user_id
    → q.editing_group_id ≡ p.editing_group_id
    → (q.editor ≡ p.editor) ⊎ (q.editor ≡ none)
    → IsExclusive p
    → IsExclusive q
same-IsExclusive p q a b c (inl d) (edits_ou x y z) = edits_ou (cc (b, x)) (cc (c, y)) (still d z)
same-IsExclusive p q a b c (inl d) (edits_user x y z) =
    edits_user (cc (a, x)) (cc (c, y)) (still d z)
same-IsExclusive p q a b c (inl d) (edits_group x y z) =
    edits_group (cc (a, x)) (cc (b, y)) (still d z)
same-IsExclusive p q a b c (inr d) (edits_ou x y z) = edits_ou (cc (b, x)) (cc (c, y)) (inl d)
same-IsExclusive p q a b c (inr d) (edits_user x y z) = edits_user (cc (a, x)) (cc (c, y)) (inl d)
same-IsExclusive p q a b c (inr d) (edits_group x y z) = edits_group (cc (a, x)) (cc (b, y)) (inl d)

guarded-IsExclusive :
    (b : Bool) (p q : Page) → IsExclusive p → IsExclusive q → IsExclusive (if b then p else q)
guarded-IsExclusive true p q h k = h
guarded-IsExclusive false p q h k = k

Step-IsExclusive : {p q : Page} → Step p q → IsExclusive p → IsExclusive q
unfolding open_ou_editor open_user_editor open_group_editor set_editor_open open_reset_password
    set_reset_password_open
Step-IsExclusive (opens_ou ou parent_id p) h = edits_ou refl refl (inr refl)
Step-IsExclusive (opens_user user employee_id p) h = edits_user refl refl (inr refl)
Step-IsExclusive (opens_group group p) h =
    guarded-IsExclusive (not (is_given group) && not (is_chosen p.selected_ou_id)) p _ h
      (edits_group refl refl (inr refl))
Step-IsExclusive (sets_editor value p) h =
    guarded-IsExclusive (not value && not p.saving) (record p { editor = none }) p
      (same-IsExclusive p _ refl refl refl (inr refl) h) h
Step-IsExclusive (opens_reset user p) h = same-IsExclusive p _ refl refl refl (inl refl) h
Step-IsExclusive (sets_reset value p) h =
    guarded-IsExclusive (not value && not p.saving)
      (record p { reset_password_target = none; reset_password_value = "" }) p
      (same-IsExclusive p _ refl refl refl (inl refl) h) h
Step-IsExclusive (selects id p) h = same-IsExclusive p _ refl refl refl (inl refl) h
Step-IsExclusive (saves b p) h = same-IsExclusive p _ refl refl refl (inl refl) h

-- From a page where at most one record is edited, every sequence of openings and closings of editors
-- and of changes of the selection leaves at most one record edited, and no editor open but its own.
pub Reach-IsExclusive : (p q : Page) → IsExclusive p → Reach p q → IsExclusive q
Reach-IsExclusive p q h start = h
Reach-IsExclusive p q h (next {q = m} r s) = Step-IsExclusive s (Reach-IsExclusive p m h r)

-- The members of a group that is opened in the editor are the members that are sent if nothing is
-- changed, if no identifier is empty, holds a comma or has a blank at an end.
pub open_group_editor-members :
    (group : GroupRecord) (p : Page)
    → All (IsPart 44) group.member_employee_ids
    → All (λ x. truthy x ≡ true) group.member_employee_ids
    → (split_members (open_group_editor (some group) p).group_form.member_employee_ids
        ≡ group.member_employee_ids)
      × ((open_group_editor (some group) p).editing_group_id ≡ some group.id)
      × ((open_group_editor (some group) p).editor ≡ some group_editor)
unfolding open_group_editor
open_group_editor-members group p h k =
    (split_members-join group.member_employee_ids h k, refl, refl)
