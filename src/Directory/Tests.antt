-- ===== src/Directory/Tests.antt =====
-- Runs of the directory functions, and their laws at a concrete directory.
use Prim.Native.Nat.{compare}
use Prim.Native.String.{count}
use mathlib.Core.List.{Perm, Memᴰ}
use adscope_identity.Prelude.{
  ℕ, String, true, ◌≡◌, refl, List, [], ◌∷◌, ◌++◌, map, Option, none, some, arith, All, IsUnique,
  has, string_equality, map_get, map_set, map_values,
}
use adscope_identity.Types.{OrganizationalUnit, OuTreeItem}
use adscope_identity.Directory.{
  Collation, sort_ous, flatten_ous, build_ou_tree, ids, ou_name, OuTreeNodes, leaf, branch, nil,
  cons, append_leaves, compare_ous, insert_ou, children, push_children, push_all, push_one, build,
  build_all, build_one, to_node, group_by_parent, add_child,
}
use adscope_identity.Directory.Order.{IsCollation, IsSorted, sort_ous-perm_IsSorted}
use adscope_identity.Directory.Flatten.{units, flatten_ous_total}
use adscope_identity.Directory.Tree.{label, preorder}
use adscope_identity.Directory.Agreement.{
  keys, orphans, build_ou_tree-flatten_ous, build_ou_tree_total,
}

-- A collation that compares lengths.
abbrev by_length : Collation
by_length = record {
  by_chinese = λ a b. compare (count a) (count b);
  by_default = λ a b. compare (count a) (count b);
}

by_length-IsCollation : IsCollation by_length
by_length-IsCollation = record {
  chinese = record {
    gt-lt = λ a b h. ground arith;
    lt-gt = λ a b h. ground arith;
    trans = λ a b d p q. ground arith;
  };
  default = record {
    gt-lt = λ a b h. ground arith;
    lt-gt = λ a b h. ground arith;
    trans = λ a b d p q. ground arith;
  };
}

abbrev unit : String → String → Option String → OrganizationalUnit
unit id name parent_id = record {
  id = id;
  name = name;
  parent_id = parent_id;
  changed_revision = 1;
}

-- A root with two children, a unit whose parent is missing with a child of its own, and a cycle.
abbrev company : List OrganizationalUnit
company =
    unit "sales" "Sales" (some "hq")
    ∷ unit "hq" "Headquarters" none
    ∷ unit "it" "IT" (some "hq")
    ∷ unit "lost" "Lost" (some "gone")
    ∷ unit "found" "Found+" (some "lost")
    ∷ unit "a" "Cycle-A" (some "b")
    ∷ unit "b" "CyclicB+" (some "a")
    ∷ []

directory : Unit {0}
unfolding sort_ous flatten_ous build_ou_tree compare_ous insert_ou children push_children push_all
    push_one build build_all build_one to_node group_by_parent add_child map_get map_set map_values
directory = tt

abbrev item : String → String → Option String → ℕ → OuTreeItem
item id name parent_id depth = record { ou = unit id name parent_id; depth = depth }

abbrev company_items : List OuTreeItem
company_items =
    item "hq" "Headquarters" none 0
    ∷ item "it" "IT" (some "hq") 1
    ∷ item "sales" "Sales" (some "hq") 1
    ∷ item "lost" "Lost" (some "gone") 0
    ∷ item "found" "Found+" (some "lost") 1
    ∷ item "a" "Cycle-A" (some "b") 0
    ∷ item "b" "CyclicB+" (some "a") 1
    ∷ []

flatten_company : flatten_ous by_length company ≡ some company_items
unfolding directory
flatten_company = refl

abbrev company_roots : OuTreeNodes
company_roots =
    cons (branch "hq" "Headquarters" (cons (leaf "it" "IT") (cons (leaf "sales" "Sales") nil))) nil

-- The child of a unit whose parent is missing stands below it in the list, and beside it in the
-- tree.
tree_company :
    build_ou_tree by_length company
    ≡ some (
        append_leaves company_roots (
          unit "lost" "Lost" (some "gone")
          ∷ unit "found" "Found+" (some "lost")
          ∷ unit "a" "Cycle-A" (some "b")
          ∷ unit "b" "CyclicB+" (some "a")
          ∷ []))
unfolding directory
tree_company = refl

sort_ous-perm_IsSorted_example :
    Perm (sort_ous by_length company) company × IsSorted by_length (sort_ous by_length company)
sort_ous-perm_IsSorted_example = sort_ous-perm_IsSorted by_length company by_length-IsCollation

flatten_ous_total_example :
    (items : List OuTreeItem) × (flatten_ous by_length company ≡ some items)
    × All (λ ou. Memᴰ ou company) (units items)
    × IsUnique (ids (units items))
    × ((x : String) → has x (ids (units items)) ≡ has x (ids company))
flatten_ous_total_example = flatten_ous_total by_length company

company-IsUnique : IsUnique (ids company)
company-IsUnique = (refl, (refl, (refl, (refl, (refl, (refl, (refl, tt)))))))

build_ou_tree-flatten_ous_example :
    (roots : OuTreeNodes) × (items : List OuTreeItem) × (rest : List OuTreeItem) × (build_ou_tree
        by_length company
      ≡ some (append_leaves roots (orphans by_length company roots)))
    × (flatten_ous by_length company ≡ some items)
    × (map label items ≡ preorder roots 0 ++ map label rest)
    × IsUnique (keys roots)
    × ((x : String) → has x (keys roots) ≡ true → has x (ids company) ≡ true)
build_ou_tree-flatten_ous_example = build_ou_tree-flatten_ous by_length company

build_ou_tree_total_example :
    (tree : OuTreeNodes) × (build_ou_tree by_length company ≡ some tree)
    × ((x : String) → has x (keys tree) ≡ has x (ids company))
    × IsUnique (keys tree)
build_ou_tree_total_example = build_ou_tree_total by_length company company-IsUnique

name_of_known : ou_name company (some "it") ≡ "IT"
unfolding ou_name
name_of_known = refl

name_of_missing : ou_name company (some "gone") ≡ "gone"
unfolding ou_name
name_of_missing = refl
