-- ===== src/DirectoryPage/View.antt =====
-- What portal/web/app/pages/admin/directory.vue shows: the intents of its handlers, the tree of units,
-- and the tables portal/web/app/components/directory/UserTable.vue and GroupTable.vue. The editors
-- stand in Editors, the whole page in Shown.
pub mod Editors
pub mod Shown
pub mod Held
pub mod Started
use adscope_identity.Prelude.{
  String, ℕ, Bool, true, false, ◌||◌, ltb, length, if◌then◌else◌, Option, none, some, or_else, List,
  [], ◌∷◌, ◌++◌,
}
use adscope_identity.Text.Decimal.{decimal}
use adscope_identity.Types.{
  OrganizationalUnit, UserRecord, GroupRecord, UserStatus, active, disabled,
}
use adscope_identity.Directory.{OuTreeNode, OuTreeNodes, leaf, branch, nil, cons}
use adscope_identity.Async.{modify}
use adscope_identity.View.{Element, title, words, button, table, row, plain_row, for_each}
use adscope_identity.AdminApi.{Action, Platform}
use adscope_identity.AdminApi.Signing.{refresh_directory}
use adscope_identity.DirectoryPage.{
  Page, open_ou_editor, open_group_editor, open_reset_password, set_editor_open,
  set_reset_password_open,
}
use adscope_identity.DirectoryPage.Programs.{
  on_page, start_user_editor, save_ou, save_user, save_group, reset_user_password,
}
use adscope_identity.DirectoryPage.Removals.{edit_ou_node, remove_ou_node, remove_user}

-- What the handlers of the template do. The key of a unit comes from its node in the tree.
pub data Intent : Type 0 where
  refreshes creates_ou creates_user creates_group closes_editor closes_reset : Intent
  saves_ou saves_user saves_group resets : Intent
  edits_ou removes_ou : (key : String) → Intent
  edits_user asks_reset removes_user : UserRecord → Intent
  edits_group : GroupRecord → Intent

-- Whether a handler sends a change to the server.
abbrev pub changes : Intent → Bool
changes saves_ou = true
changes saves_user = true
changes saves_group = true
changes resets = true
changes (removes_ou key) = true
changes (removes_user user) = true
changes _ = false

unfoldable pub perform : Platform → Intent → Action (Unit {0})
perform platform refreshes = refresh_directory platform
perform platform creates_ou = modify (on_page (λ p. open_ou_editor none p.selected_ou_id p))
perform platform creates_user = start_user_editor platform none
perform platform creates_group = modify (on_page (open_group_editor none))
perform platform closes_editor = modify (on_page (set_editor_open false))
perform platform closes_reset = modify (on_page (set_reset_password_open false))
perform platform saves_ou = save_ou platform
perform platform saves_user = save_user platform
perform platform saves_group = save_group platform
perform platform resets = reset_user_password platform
perform platform (edits_ou key) = edit_ou_node key
perform platform (removes_ou key) = remove_ou_node platform key
perform platform (edits_user user) = start_user_editor platform (some user)
perform platform (asks_reset user) = modify (on_page (open_reset_password user))
perform platform (removes_user user) = remove_user platform user
perform platform (edits_group group) = modify (on_page (open_group_editor (some group)))

-- `busy`, for the number of requests in flight.
abbrev pub busy : ℕ → Page → Bool
busy pending p = p.saving || ltb 0 pending

-- A node of the tree, and its buttons.
abbrev pub node_shown : Bool → String → String → List (Element Intent)
node_shown busy key name =
    plain_row (name ∷ [])
    ∷ button "编辑组织单元" busy (edits_ou key)
    ∷ button "删除组织单元" busy (removes_ou key)
    ∷ []

-- The tree, whose nodes are all expanded.
abbrev mutual
  pub tree_node : Bool → OuTreeNode → List (Element Intent)
  tree_node busy (leaf key name) = node_shown busy key name
  tree_node busy (branch key name nodes) = node_shown busy key name ++ tree_nodes busy nodes

  pub tree_nodes : Bool → OuTreeNodes → List (Element Intent)
  tree_nodes busy nil = []
  tree_nodes busy (cons node nodes) = tree_node busy node ++ tree_nodes busy nodes

-- The card of the tree; there is a tree if it has a node.
unfoldable pub units_card : Bool → OuTreeNodes → List (Element Intent)
units_card busy nil =
    title "组织单元"
    ∷ button "新建组织单元" busy creates_ou
    ∷ title "还没有组织单元"
    ∷ words "先创建 OU，再维护用户和安全组。"
    ∷ []
units_card busy (cons node nodes) =
    title "组织单元" ∷ button "新建组织单元" busy creates_ou ∷ tree_nodes busy (cons node nodes)

abbrev pub status_label : UserStatus → String
status_label active = "启用"
status_label disabled = "禁用"

-- The row of a user, which opens the editor also while the page is busy, and its buttons.
unfoldable pub user_row : Bool → UserRecord → List (Element Intent)
user_row busy user =
    row
      (user.employee_id
        ∷ user.username
        ∷ user.display_name
        ∷ or_else user.email ""
        ∷ or_else user.mobile ""
        ∷ status_label user.status
        ∷ [])
      (edits_user user)
    ∷ button "编辑用户" busy (edits_user user)
    ∷ button "重置" busy (asks_reset user)
    ∷ button "删除" busy (removes_user user)
    ∷ []

unfoldable pub user_table : Bool → Bool → List UserRecord → List (Element Intent)
user_table loading busy users =
    table "当前 OU 下还没有用户" loading ("工号" ∷ "登录名" ∷ "显示名" ∷ "邮箱" ∷ "手机" ∷ "状态" ∷ "操作" ∷ [])
    ∷ for_each users (user_row busy)

-- The row of a group, which opens the editor also while the page is busy, and its button.
unfoldable pub group_row : Bool → GroupRecord → List (Element Intent)
group_row busy group =
    row (group.id ∷ group.name ∷ decimal (length group.member_employee_ids) ∷ [])
      (edits_group group)
    ∷ button "编辑安全组" busy (edits_group group)
    ∷ []

unfoldable pub group_table : Bool → Bool → List GroupRecord → List (Element Intent)
group_table loading busy groups =
    table "当前 OU 下还没有安全组" loading ("组标识" ∷ "组名称" ∷ "成员" ∷ "操作" ∷ [])
    ∷ for_each groups (group_row busy)
