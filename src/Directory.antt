-- ===== src/Directory.antt =====
-- portal/web/app/utils/directory.ts: sorting the organizational units, and showing them as a list
-- with depths or as a tree of nodes. `localeCompare` is a parameter.
pub mod Sort
pub mod Order
pub mod Children
pub mod Visits
pub mod Flatten
pub mod Tree
pub mod Agreement
pub mod Tests
use adscope_identity.Prelude.{
  ℕ, zero, suc, ◌+◌, String, Bool, not, ◌==◌, if◌then◌else◌, List, [], ◌∷◌, ◌++◌, map, filter,
  find?, has, length, Option, none, some, or_else, ◌>>=◌, map_get, map_set, map_values,
  string_equality, option_equality,
}
use adscope_identity.Text.{truthy}
use adscope_identity.Types.{OrganizationalUnit, OuTreeItem}
use Prim.Native.Nat.{Ordering}

-- `left.localeCompare(right, 'zh-Hans-CN')` and `left.localeCompare(right)`.
pub record Collation : Type 0 where
  pub by_chinese : String → String → Ordering
  pub by_default : String → String → Ordering

-- The two maps of `OuTreeNode`: a node has the property `children` only if it has children.
mutual
  pub data OuTreeNode : Type 0 where
    leaf : String → String → OuTreeNode
    branch : String → String → OuTreeNodes → OuTreeNode

  pub data OuTreeNodes : Type 0 where
    nil : OuTreeNodes
    cons : OuTreeNode → OuTreeNodes → OuTreeNodes

-- What the closures of `flattenOus` write: the set of visited identifiers and the list of items,
-- each in the order of insertion.
pub record Walk : Type 0 where
  pub visited : List String
  pub items : List OuTreeItem

abbrev pub visit : OrganizationalUnit → ℕ → Walk → Walk
visit ou depth w = record {
  visited = w.visited ++ ou.id ∷ [];
  items = w.items ++ record { ou = ou; depth = depth } ∷ [];
}

abbrev pub ids : List OrganizationalUnit → List String
ids ous = map (λ ou. ou.id) ous

-- The loop over siblings; `below` is the call `pushChildren(ou.id, depth + 1)`.
unfoldable pub push_one :
    (Option String → ℕ → Walk → Option Walk) → ℕ → OrganizationalUnit → Walk → Option Walk
push_one below depth ou w =
    if has ou.id w.visited then some w else below (some ou.id) (depth + 1) (visit ou depth w)

unfoldable pub push_all :
    (Option String → ℕ → Walk → Option Walk) → ℕ → List OrganizationalUnit → Walk → Option Walk
push_all below depth [] w = some w
push_all below depth (ou ∷ ous) w = push_one below depth ou w >>= push_all below depth ous

-- The map from parents to their children, in input order.
unfoldable pub add_child :
    List (Option String × List OrganizationalUnit)
    → OrganizationalUnit
    → List (Option String × List OrganizationalUnit)
add_child by_parent ou =
    map_set ou.parent_id (or_else (map_get ou.parent_id by_parent) [] ++ ou ∷ []) by_parent

unfoldable pub group_by_parent :
    List OrganizationalUnit
    → List (Option String × List OrganizationalUnit)
    → List (Option String × List OrganizationalUnit)
group_by_parent [] by_parent = by_parent
group_by_parent (ou ∷ ous) by_parent = group_by_parent ous (add_child by_parent ou)

unfoldable pub ou_name : List OrganizationalUnit → Option String → String
ou_name ous none = "-"
ou_name ous (some ou_id) =
    if truthy ou_id
    then or_else (elim (find? (λ ou. ou.id == ou_id) ous) [ none ↦ none | some ou ↦ some ou.name ])
        ou_id
    else "-"

-- `toNode`, and the property `children` of a node that has children.
unfoldable pub to_node : OrganizationalUnit → OuTreeNodes → OuTreeNode
to_node ou nil = leaf ou.id ou.name
to_node ou (cons n ns) = branch ou.id ou.name (cons n ns)

-- The loop of `build` over siblings, with the visited set.
unfoldable pub build_one :
    (Option String → List String → Option (OuTreeNodes × List String))
    → OrganizationalUnit
    → List String
    → Option (Option OuTreeNode × List String)
build_one build ou visited =
    if has ou.id visited
    then some (none, visited)
    else (build (some ou.id) (visited ++ ou.id ∷ []) >>= λ (ns, seen).
        some (some (to_node ou ns), seen))

abbrev pub add_node : Option OuTreeNode → OuTreeNodes → OuTreeNodes
add_node none ns = ns
add_node (some n) ns = cons n ns

unfoldable pub build_all :
    (Option String → List String → Option (OuTreeNodes × List String))
    → List OrganizationalUnit
    → List String
    → Option (OuTreeNodes × List String)
build_all build [] visited = some (nil, visited)
build_all build (ou ∷ ous) visited = do
  (n, seen) ← build_one build ou visited
  (ns, all_seen) ← build_all build ous seen
  some (add_node n ns, all_seen)

abbrev pub append_leaves : OuTreeNodes → List OrganizationalUnit → OuTreeNodes
append_leaves nil [] = nil
append_leaves nil (ou ∷ ous) = cons (leaf ou.id ou.name) (append_leaves nil ous)
append_leaves (cons n ns) ous = cons n (append_leaves ns ous)

module _ (c : Collation) where
  unfoldable pub compare_ous : OrganizationalUnit → OrganizationalUnit → Ordering
  compare_ous left right = elim (c.by_chinese left.name right.name) [
    | Ordering.eq ↦ c.by_default left.id right.id
    | Ordering.lt ↦ Ordering.lt
    | Ordering.gt ↦ Ordering.gt
  ]

  unfoldable pub insert_ou : OrganizationalUnit → List OrganizationalUnit → List OrganizationalUnit
  insert_ou ou [] = ou ∷ []
  insert_ou ou (o ∷ os) = elim (compare_ous ou o) [
    | Ordering.gt ↦ o ∷ insert_ou ou os
    | _ ↦ ou ∷ o ∷ os
  ]

  -- `[...ous].sort(...)`, which is stable.
  unfoldable pub sort_ous : List OrganizationalUnit → List OrganizationalUnit
  sort_ous [] = []
  sort_ous (ou ∷ ous) = insert_ou ou (sort_ous ous)

  -- `byParent.get(parentId) ?? []` after both loops that fill the map.
  unfoldable pub children : List OrganizationalUnit → Option String → List OrganizationalUnit
  children ous parent_id =
      or_else (map_get parent_id (map_values sort_ous (group_by_parent ous []))) []

  -- `pushChildren`. The fuel counts the levels of nested calls, and `none` means that it ran out.
  unfoldable pub push_children :
      ℕ → List OrganizationalUnit → Option String → ℕ → Walk → Option Walk
  push_children zero ous parent_id depth w = none
  push_children (suc fuel) ous parent_id depth w =
      push_all (push_children fuel ous) depth (children ous parent_id) w

  -- One level for each unit and one more are enough.
  unfoldable pub flatten_ous : List OrganizationalUnit → Option (List OuTreeItem)
  flatten_ous ous = do
    let below = push_children (suc (length ous)) ous
    rooted ← below none 0 (record { visited = []; items = [] })
    full ← push_all below 0 (sort_ous ous) rooted
    some full.items

  unfoldable pub build :
      ℕ → List OrganizationalUnit → Option String → List String → Option (OuTreeNodes × List String)
  build zero ous parent_id visited = none
  build (suc fuel) ous parent_id visited =
      build_all (build fuel ous) (children ous parent_id) visited

  unfoldable pub build_ou_tree : List OrganizationalUnit → Option OuTreeNodes
  build_ou_tree ous = do
    (roots, visited) ← build (suc (length ous)) ous none []
    some (append_leaves roots (filter (λ ou. not (has ou.id visited)) (sort_ous ous)))
