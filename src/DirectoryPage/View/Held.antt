-- ===== src/DirectoryPage/View/Held.antt =====
-- What portal/web/app/pages/admin/directory.vue offers while a save runs.
use adscope_identity.Prelude.{
  String, ◌==◌, string_equality, Bool, true, not, ◌≡◌, refl, List, [], ◌∷◌, All-append, Option,
  some, if◌then◌else◌,
}
use adscope_identity.Types.{OuTreeItem, UserRecord, GroupRecord, OuForm, UserForm, GroupForm}
use adscope_identity.Directory.{
  Collation, OuTreeNode, OuTreeNodes, leaf, branch, nil, cons, append_leaves,
}
use adscope_identity.Directory.Agreement.{orphans, build_ou_tree-flatten_ous}
use adscope_identity.DirectoryPage.View.{creates_user, creates_group}
use adscope_identity.View.{Element, button}
use adscope_identity.View.Laws.{All-if, All-when, All-for_each, AllHeld, AllHeld-of_true}
use adscope_identity.AdminApi.{directory_loading}
use adscope_identity.AdminApi.State.{Store}
use adscope_identity.DirectoryPage.{
  Page, ou_editor, user_editor, group_editor, is_chosen, is_given, find_ou,
}
use adscope_identity.DirectoryPage.View.{
  Intent, changes, busy, tree_node, tree_nodes, units_card, user_row, user_table, group_row,
  group_table,
}
use adscope_identity.DirectoryPage.View.Editors.{
  ou_fields, user_fields, group_fields, is_editor, ou_drawer, user_drawer, reset_modal,
  group_drawer,
}
use adscope_identity.DirectoryPage.View.Shown.{section, no_section, view_of, view}

abbrev Held : List (Element Intent) → Type 0
Held elements = AllHeld changes true elements

module _ (b : Bool) (e : b ≡ true) where
  mutual
    tree_node-Held : (node : OuTreeNode) → Held (tree_node b node)
    tree_node-Held (leaf key name) = (refl, (refl, (e, tt)))
    tree_node-Held (branch key name nodes) = (refl, (refl, (e, tree_nodes-Held nodes)))

    tree_nodes-Held : (nodes : OuTreeNodes) → Held (tree_nodes b nodes)
    tree_nodes-Held nil = tt
    tree_nodes-Held (cons node nodes) =
        All-append _ (tree_node b node) (tree_nodes b nodes) (tree_node-Held node)
          (tree_nodes-Held nodes)

  units_card-Held : (tree : OuTreeNodes) → Held (units_card b tree)
  unfolding units_card
  units_card-Held nil = (refl, (refl, (refl, (refl, tt))))
  units_card-Held (cons node nodes) = (refl, (refl, tree_nodes-Held (cons node nodes)))

  user_row-Held : (user : UserRecord) → Held (user_row b user)
  unfolding user_row
  user_row-Held user = (refl, (refl, (refl, (e, tt))))

  user_table-Held : (loading : Bool) (users : List UserRecord) → Held (user_table loading b users)
  unfolding user_table
  user_table-Held loading users = (refl, All-for_each _ users (user_row b) user_row-Held)

  group_row-Held : (group : GroupRecord) → Held (group_row b group)
  unfolding group_row
  group_row-Held group = (refl, (refl, tt))

  group_table-Held :
      (loading : Bool) (groups : List GroupRecord) → Held (group_table loading b groups)
  unfolding group_table
  group_table-Held loading groups = (refl, All-for_each _ groups (group_row b) group_row-Held)

module _ (id : Option String) (items : List OuTreeItem) where
  ou_fields-Held : (model : OuForm) → Held (ou_fields id items model)
  unfolding ou_fields
  ou_fields-Held model = (refl, (refl, (refl, (refl, tt))))

  user_fields-Held : (model : UserForm) → Held (user_fields id items model)
  unfolding user_fields
  user_fields-Held model = (
    refl,
    (
      refl,
      (
        refl,
        (
          refl,
          (
            refl,
            (refl, (refl, (refl, (refl, (refl, All-when _ (not (is_chosen id)) _ (refl, tt)))))),
          ),
        ),
      ),
    ),
  )

  group_fields-Held : (model : GroupForm) → Held (group_fields id items model)
  unfolding group_fields
  group_fields-Held model = (refl, (refl, (refl, (refl, (refl, tt)))))

module _ (items : List OuTreeItem) (p : Page) (e : p.saving ≡ true) where
  ou_drawer-Held : Held (ou_drawer items p)
  unfolding ou_drawer
  ou_drawer-Held = All-when _ (is_editor ou_editor p.editor) _ (
    refl,
    All-append _ (ou_fields p.editing_ou_id items p.ou_form) _
        (ou_fields-Held p.editing_ou_id items p.ou_form) (refl, (e, tt)),
  )

  user_drawer-Held : Held (user_drawer items p)
  unfolding user_drawer
  user_drawer-Held = All-when _ (is_editor user_editor p.editor) _ (
    refl,
    All-append _ (user_fields p.editing_user_id items p.user_form) _
        (user_fields-Held p.editing_user_id items p.user_form) (refl, (e, tt)),
  )

  group_drawer-Held : Held (group_drawer items p)
  unfolding group_drawer
  group_drawer-Held = All-when _ (is_editor group_editor p.editor) _ (
    refl,
    All-append _ (group_fields p.editing_group_id items p.group_form) _
        (group_fields-Held p.editing_group_id items p.group_form) (refl, (e, tt)),
  )

  reset_modal-Held : Held (reset_modal p)
  unfolding reset_modal
  reset_modal-Held =
      All-when _ (is_given p.reset_password_target) _
        (refl, (refl, (refl, (refl, (refl, (e, tt))))))

module _ (tab : String) (s : Store) (e : s.refs.directory.saving ≡ true) where
  busy_while_saving : busy s.pending s.refs.directory ≡ true
  busy_while_saving = rw e refl

  section-Held : Held (section tab s)
  unfolding section
  section-Held =
      let b = busy s.pending s.refs.directory in
      let loading = directory_loading s.flags in
      (
        refl,
        All-append _
            (if tab == "groups"
              then button "新建" b creates_group ∷ []
              else button "新建" b creates_user ∷ [])
            _ (All-if _ (tab == "groups") _ _ (refl, tt) (refl, tt))
            (All-if _ (tab == "users") _ _ (user_table-Held b busy_while_saving loading _)
              (group_table-Held b busy_while_saving loading _)),
      )

  view_of-Held : (items : List OuTreeItem) (tree : OuTreeNodes) → Held (view_of items tree tab s)
  unfolding view_of
  view_of-Held items tree =
      let p = s.refs.directory in
      let selected = find_ou p.selected_ou_id s.content.organizational_units in
      (
        refl,
        All-append _ (units_card (busy s.pending p) tree) _
            (units_card-Held _ busy_while_saving tree)
            (All-append _ (if is_given selected then section tab s else no_section s) _
              (All-if _ (is_given selected) _ _ section-Held (refl, (refl, tt)))
              (All-append _ (ou_drawer items p) _ (ou_drawer-Held items p e) (
                All-append _ (user_drawer items p) _ (user_drawer-Held items p e) (
                  All-append _ (reset_modal p) _ (reset_modal-Held items p e)
                    (group_drawer-Held items p e))))),
      )

-- The page is shown, and while a save runs, every button of it that would send a change to the server
-- is disabled, and so is every submit button.
pub view-Held :
    (c : Collation) (tab : String) (s : Store)
    → (elements : List (Element Intent)) × (view c tab s ≡ some elements)
      × AllHeld changes s.refs.directory.saving elements
unfolding view
view-Held c tab s =
    let ous = s.content.organizational_units in
    let (roots, items, rest, built, flat, shown, once, known) = build_ou_tree-flatten_ous c ous in
    let tree = append_leaves roots (orphans c ous roots) in
    (
      view_of items tree tab s,
      rw flat rw built refl,
      AllHeld-of_true changes s.refs.directory.saving (view_of items tree tab s)
          (λ e. view_of-Held tab s e items tree),
    )
