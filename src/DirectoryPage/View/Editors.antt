-- ===== src/DirectoryPage/View/Editors.antt =====
-- The drawers of portal/web/app/pages/admin/directory.vue, with
-- portal/web/app/components/directory/OuEditor.vue, UserEditor.vue and GroupEditor.vue.
use Prim.Native.String
use adscope_identity.Prelude.{
  String, Bool, true, false, not, if◌then◌else◌, Option, some, List, [], ◌∷◌, ◌++◌,
}
use adscope_identity.Types.{
  OuTreeItem, UserRecord, UserStatus, active, disabled, OuForm, UserForm, GroupForm,
}
use adscope_identity.View.{
  SelectOption, Element, title, words, button, form, submit, input, choice, when,
}
use adscope_identity.DirectoryPage.{
  Page, EditorKey, ou_editor, user_editor, group_editor, is_chosen, is_given, text_of,
}
use adscope_identity.DirectoryPage.Options.{unit_options, parent_options}
use adscope_identity.DirectoryPage.View.{
  Intent, closes_editor, closes_reset, saves_ou, saves_user, saves_group, resets,
}

-- `OuEditor` for the identifier that is edited.
unfoldable pub ou_fields : Option String → List OuTreeItem → OuForm → List (Element Intent)
ou_fields editing_id items model =
    form "ou-form" saves_ou
    ∷ input "OU 标识" model.id true (is_chosen editing_id)
    ∷ input "名称" model.name true false
    ∷ choice "父 OU" model.parent_id false false (parent_options editing_id items)
    ∷ []

abbrev pub status_text : UserStatus → String
status_text active = "active"
status_text disabled = "disabled"

abbrev pub status_options : List SelectOption
status_options =
    record { value = "active"; label = "启用"; disabled = false }
    ∷ record { value = "disabled"; label = "禁用"; disabled = false }
    ∷ []

-- `UserEditor`, which asks for a password only for a new user.
unfoldable pub user_fields : Option String → List OuTreeItem → UserForm → List (Element Intent)
user_fields editing_id items model =
    form "user-form" saves_user
    ∷ input "工号" model.employee_id false true
    ∷ input "登录名" model.username true false
    ∷ input "姓" model.surname true false
    ∷ input "名" model.given_name true false
    ∷ input "显示名" model.display_name false false
    ∷ choice "状态" (status_text model.status) false false status_options
    ∷ choice "所属 OU" model.organizational_unit_id true false (unit_options items)
    ∷ input "邮箱" model.email false false
    ∷ input "手机" model.mobile false false
    ∷ when (not (is_chosen editing_id)) (input "初始密码" model.initial_password true false ∷ [])

-- `GroupEditor` for the identifier that is edited.
unfoldable pub group_fields : Option String → List OuTreeItem → GroupForm → List (Element Intent)
group_fields editing_id items model =
    form "group-form" saves_group
    ∷ input "组标识" model.id true (is_chosen editing_id)
    ∷ input "组名称" model.name true false
    ∷ choice "所属 OU" model.organizational_unit_id true false (unit_options items)
    ∷ input "成员工号" model.member_employee_ids false false
    ∷ []

-- `ouEditorOpen`, `userEditorOpen` and `groupEditorOpen`.
abbrev pub is_editor : EditorKey → Option EditorKey → Bool
is_editor ou_editor (some ou_editor) = true
is_editor user_editor (some user_editor) = true
is_editor group_editor (some group_editor) = true
is_editor _ _ = false

-- The buttons at the end of a drawer.
abbrev pub footer : Bool → Intent → String → String → List (Element Intent)
footer saving closes label form_id = button "取消" saving closes ∷ submit label saving form_id ∷ []

unfoldable pub ou_drawer : List OuTreeItem → Page → List (Element Intent)
ou_drawer items p = when (is_editor ou_editor p.editor) (
    title (if is_chosen p.editing_ou_id then "编辑 OU" else "新建 OU")
      ∷ ou_fields p.editing_ou_id items p.ou_form
    ++ footer p.saving closes_editor "保存" "ou-form")

unfoldable pub user_drawer : List OuTreeItem → Page → List (Element Intent)
user_drawer items p = when (is_editor user_editor p.editor) (
    title (if is_chosen p.editing_user_id then "编辑用户" else "新建用户")
      ∷ user_fields p.editing_user_id items p.user_form
    ++ footer p.saving closes_editor "保存" "user-form")

unfoldable pub group_drawer : List OuTreeItem → Page → List (Element Intent)
group_drawer items p = when (is_editor group_editor p.editor) (
    title (if is_chosen p.editing_group_id then "编辑安全组" else "新建安全组")
      ∷ group_fields p.editing_group_id items p.group_form
    ++ footer p.saving closes_editor "保存" "group-form")

abbrev pub reset_text : Option UserRecord → String
reset_text user = String.◌++◌ "为 " (
    String.◌++◌ (text_of (λ u. u.display_name) user)
      (String.◌++◌ "（" (String.◌++◌ (text_of (λ u. u.username) user) "）设置新密码。")))

-- The dialog that resets a password.
unfoldable pub reset_modal : Page → List (Element Intent)
reset_modal p = when (is_given p.reset_password_target) (
    title "重置密码"
    ∷ form "password-reset-form" resets
    ∷ words (reset_text p.reset_password_target)
    ∷ input "新密码" p.reset_password_value true false
    ∷ footer p.saving closes_reset "重置" "password-reset-form")
