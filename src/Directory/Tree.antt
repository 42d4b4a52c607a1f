-- ===== src/Directory/Tree.antt =====
-- The traversal of `buildOuTree` beside that of `flattenOus`, and the preorder of a tree.
use adscope_identity.Prelude.{
  ℕ, zero, suc, String, ◌≡◌, refl, sym, ◌∙◌, List, [], ◌∷◌, ◌++◌, map, Option, none, some, has,
  string_equality, ◌>>=◌, append_assoc, append-nil, map-append, Bool-cases, inl, inr,
}
use native.Mathlib.Numerals.{add-one}
use adscope_identity.Types.{OrganizationalUnit, OuTreeItem}
use adscope_identity.Directory.{
  Collation, Walk, visit, push_one, push_all, push_children, children, OuTreeNode, OuTreeNodes,
  leaf, branch, nil, cons, to_node, build_one, build_all, build, add_node,
}

-- What a node and an item show: the identifier, the name and the depth.
pub record Label : Type 0 where
  pub key : String
  pub title : String
  pub depth : ℕ

abbrev pub label : OuTreeItem → Label
label i = record { key = i.ou.id; title = i.ou.name; depth = i.depth }

abbrev mutual
  pub preorder_node : OuTreeNode → ℕ → List Label
  preorder_node (leaf key title) d = record { key = key; title = title; depth = d } ∷ []
  preorder_node (branch key title ns) d =
      record { key = key; title = title; depth = d } ∷ preorder ns (suc d)

  pub preorder : OuTreeNodes → ℕ → List Label
  preorder nil d = []
  preorder (cons n ns) d = preorder_node n d ++ preorder ns d

preorder-to_node :
    (ou : OrganizationalUnit) (ns : OuTreeNodes) (d : ℕ)
    → preorder_node (to_node ou ns) d
      ≡ record { key = ou.id; title = ou.name; depth = d } ∷ preorder ns (suc d)
unfolding to_node
preorder-to_node ou nil d = refl
preorder-to_node ou (cons n ns) d = refl

-- A walk and a call of `build` agree: both fail, or both end with the same visited set, and the
-- walk has added the preorder of the nodes.
abbrev pub Agrees : ℕ → Walk → Option Walk → Option (OuTreeNodes × List String) → Type 0
Agrees d w none none = Unit
Agrees d w (some w') (some (ns, seen)) =
    (seen ≡ w'.visited) × (map label w'.items ≡ map label w.items ++ preorder ns d)
Agrees d w _ _ = ⊥

abbrev AgreesOne : ℕ → Walk → Option Walk → Option (Option OuTreeNode × List String) → Type 0
AgreesOne d w none none = Unit
AgreesOne d w (some w') (some (n, seen)) =
    (seen ≡ w'.visited) × (map label w'.items ≡ map label w.items ++ preorder (add_node n nil) d)
AgreesOne d w _ _ = ⊥

-- The visited unit, and below it what the calls for its children agree on.
visit-AgreesOne :
    (ou : OrganizationalUnit) (d : ℕ) (w : Walk) (r : Option Walk)
    (t : Option (OuTreeNodes × List String))
    → Agrees (suc d) (visit ou d w) r t
    → AgreesOne d w r (t >>= λ (ns, seen). some (some (to_node ou ns), seen))
visit-AgreesOne ou d w none none h = tt
visit-AgreesOne ou d w none (some (ns, seen)) h = elim h [ ]
visit-AgreesOne ou d w (some w') none h = elim h [ ]
visit-AgreesOne ou d w (some w') (some (ns, seen)) h =
    (h.0, h.1 ∙ rw (preorder-to_node, append-nil, map-append, append_assoc))

preorder-add_node :
    (n : Option OuTreeNode) (ns : OuTreeNodes) (d : ℕ)
    → preorder (add_node n ns) d ≡ preorder (add_node n nil) d ++ preorder ns d
preorder-add_node none ns d = refl
preorder-add_node (some n) ns d = rw append-nil

both_some-Agrees :
    (d : ℕ) (w u : Walk) (n : Option OuTreeNode) (r : Option Walk)
    (t : Option (OuTreeNodes × List String))
    → map label u.items ≡ map label w.items ++ preorder (add_node n nil) d
    → Agrees d u r t
    → Agrees d w r (t >>= λ (ns, seen). some (add_node n ns, seen))
both_some-Agrees d w u n none none q h = tt
both_some-Agrees d w u n none (some (ns, seen)) q h = elim h [ ]
both_some-Agrees d w u n (some w') none q h = elim h [ ]
both_some-Agrees d w u n (some w') (some (ns, seen)) q h =
    (h.0, h.1 ∙ rw (q, preorder-add_node n ns d, append_assoc))

one_then_all :
    (d : ℕ) (w : Walk) (r : Option Walk) (t : Option (Option OuTreeNode × List String))
    (f : Walk → Option Walk) (g : List String → Option (OuTreeNodes × List String))
    → AgreesOne d w r t
    → ((u : Walk) → Agrees d u (f u) (g u.visited))
    → Agrees d w
        (r >>= f)
        (t >>= λ (n, seen). g seen >>= λ (ns, all_seen). some (add_node n ns, all_seen))
one_then_all d w none none f g h k = tt
one_then_all d w none (some (n, seen)) f g h k = elim h [ ]
one_then_all d w (some u) none f g h k = elim h [ ]
one_then_all d w (some u) (some (n, seen)) f g h k =
    rw h.0 (both_some-Agrees d w u n (f u) (g u.visited) h.1 (k u))

module _ (below : Option String → ℕ → Walk → Option Walk)
    (bld : Option String → List String → Option (OuTreeNodes × List String))
    (agree : (p : Option String) (d : ℕ) (w : Walk)
      → Agrees d w (below p d w) (bld p w.visited)) where
  push_one-AgreesOne :
      (d : ℕ) (ou : OrganizationalUnit) (w : Walk)
      → AgreesOne d w (push_one below d ou w) (build_one bld ou w.visited)
  unfolding push_one build_one
  push_one-AgreesOne d ou w = elim (Bool-cases (has ou.id w.visited)) [
    | inl old ↦ rw old (refl, sym (append-nil (map label w.items)))
    | inr new ↦
        rw (new, add-one d) (visit-AgreesOne ou d w _ _ (agree (some ou.id) (suc d) (visit ou d w)))
  ]

  push_all-Agrees :
      (d : ℕ) (l : List OrganizationalUnit) (w : Walk)
      → Agrees d w (push_all below d l w) (build_all bld l w.visited)
  unfolding push_all build_all
  push_all-Agrees d [] w = (refl, sym (append-nil (map label w.items)))
  push_all-Agrees d (ou ∷ l) w =
      one_then_all d w _ _ (push_all below d l) (build_all bld l) (push_one-AgreesOne d ou w)
        (push_all-Agrees d l)

-- Both traversals with the same fuel agree.
pub build-Agrees :
    (c : Collation) (ous : List OrganizationalUnit) (fuel : ℕ) (p : Option String) (d : ℕ)
    (w : Walk)
    → Agrees d w (push_children c fuel ous p d w) (build c fuel ous p w.visited)
unfolding push_children build
build-Agrees c ous zero p d w = tt
build-Agrees c ous (suc fuel) p d w =
    push_all-Agrees (push_children c fuel ous) (build c fuel ous) (build-Agrees c ous fuel) d
      (children c ous p) w
