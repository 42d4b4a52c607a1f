-- ===== src/DirectoryPage/View/Shown.antt =====
-- The whole template of portal/web/app/pages/admin/directory.vue.
use adscope_identity.Prelude.{
  String, false, ltb, length, ◌==◌, string_equality, if◌then◌else◌, Option, some, ◌>>=◌, List, [],
  ◌∷◌, ◌++◌,
}
use adscope_identity.Types.{OuTreeItem}
use adscope_identity.Directory.{Collation, OuTreeNodes, flatten_ous, build_ou_tree}
use adscope_identity.View.{SelectOption, Element, title, words, button, choice}
use adscope_identity.AdminApi.State.{Store}
use adscope_identity.AdminApi.{directory_loading}
use adscope_identity.DirectoryPage.{find_ou, is_given, selected_users, selected_groups}
use adscope_identity.DirectoryPage.View.{
  Intent, refreshes, creates_user, creates_group, busy, units_card, user_table, group_table,
}
use adscope_identity.DirectoryPage.View.Editors.{ou_drawer, user_drawer, reset_modal, group_drawer}

abbrev pub section_options : List SelectOption
section_options =
    record { value = "users"; label = "用户"; disabled = false }
    ∷ record { value = "groups"; label = "安全组"; disabled = false }
    ∷ []

-- The users and groups of the selected unit, for the value of `activeTab`.
unfoldable pub section : String → Store → List (Element Intent)
section tab s =
    let selected = s.refs.directory.selected_ou_id in
    let blocked = busy s.pending s.refs.directory in
    choice "用户与安全组" tab false false section_options
      ∷ (if tab == "groups"
          then button "新建" blocked creates_group ∷ []
          else button "新建" blocked creates_user ∷ [])
    ++ (if tab == "users"
        then user_table (directory_loading s.flags) blocked
            (selected_users selected s.content.users)
        else group_table (directory_loading s.flags) blocked
            (selected_groups selected s.content.groups))

-- What stands instead while no unit is selected.
abbrev pub no_section : Store → List (Element Intent)
no_section s =
    title "还没有选择组织单元"
    ∷ words (
        if ltb 0 (length s.content.organizational_units)
        then "在左侧 OU 树中选择一个 OU，查看它的用户和安全组。"
        else "先创建第一个 OU。")
    ∷ []

abbrev pub drawers : List OuTreeItem → Store → List (Element Intent)
drawers items s =
    let p = s.refs.directory in
    ou_drawer items p ++ (user_drawer items p ++ (reset_modal p ++ group_drawer items p))

-- The page, for the list and the tree of the units.
unfoldable pub view_of : List OuTreeItem → OuTreeNodes → String → Store → List (Element Intent)
view_of items tree tab s =
    let p = s.refs.directory in
    let selected = find_ou p.selected_ou_id s.content.organizational_units in
    button "刷新" false refreshes ∷ units_card (busy s.pending p) tree
    ++ ((if is_given selected then section tab s else no_section s) ++ drawers items s)

-- The page; the tree component gives its selection to `set_selected_keys`.
unfoldable pub view : Collation → String → Store → Option (List (Element Intent))
view c tab s = do
  items ← flatten_ous c s.content.organizational_units
  tree ← build_ou_tree c s.content.organizational_units
  some (view_of items tree tab s)
