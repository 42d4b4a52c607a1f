-- ===== src/Directory/Agreement.antt =====
-- How the list of `flattenOus` and the tree of `buildOuTree` agree.
use adscope_identity.Prelude.{
  ℕ, suc, String, Bool, true, false, not, ◌||◌, ◌≡◌, refl, sym, ◌∙◌, ap, List, [], ◌∷◌, ◌++◌, map,
  filter, length, Option, none, some, arith, has, has-append, string_equality, append_assoc,
  append-nil, map-append, All, IsUnique, subst, IsUnique-append,
}
use text.Mathlib.TextEquality.{eq_iff}
use adscope_identity.Types.{OrganizationalUnit, OuTreeItem}
use adscope_identity.Directory.{
  Collation, Walk, flatten_ous, sort_ous, ids, OuTreeNodes, nil, cons, build, append_leaves,
  build_ou_tree,
}
use adscope_identity.Directory.Sort.{sort_ous-has, sort_ous-IsUnique}
use adscope_identity.Directory.Visits.{Visits, here, next}
use adscope_identity.Directory.Flatten.{
  units, start, flatten_ous-Phases, rooted-IsConsistent, covers, All-has,
}
use adscope_identity.Directory.Tree.{Label, label, preorder, Agrees, build-Agrees}

-- The identifiers of the nodes, in preorder.
abbrev pub keys : OuTreeNodes → List String
keys ns = map (λ l. l.key) (preorder ns 0)

-- The units that the nested part of a tree leaves out.
abbrev pub orphans : Collation → List OrganizationalUnit → OuTreeNodes → List OrganizationalUnit
orphans c ous roots = filter (λ ou. not (has ou.id (keys roots))) (sort_ous c ous)

Visits-items :
    (ous : List OrganizationalUnit) {a b : Walk}
    → Visits ous a b
    → (new : List OuTreeItem) × (b.items ≡ a.items ++ new)
Visits-items ous {a} here = ([], sym (append-nil a.items))
Visits-items ous {a} (next ou d u v m h) =
    let (new, e) = Visits-items ous v in
    (
      new ++ record { ou = ou; depth = d } ∷ [],
      ap (λ i. i ++ record { ou = ou; depth = d } ∷ []) e ∙ append_assoc a.items new _,
    )

keys-label :
    (items : List OuTreeItem) → map (λ (l : Label). l.key) (map label items) ≡ ids (units items)
keys-label [] = refl
keys-label (i ∷ items) = ap (◌∷◌ i.ou.id) (keys-label items)

-- What `build` returns beside a walk that it agrees with.
Agrees-some :
    (d : ℕ) (w w' : Walk) (t : Option (OuTreeNodes × List String))
    → Agrees d w (some w') t
    → (ns : OuTreeNodes) × (t ≡ some (ns, w'.visited))
      × (map label w'.items ≡ map label w.items ++ preorder ns d)
Agrees-some d w w' none h = elim h [ ]
Agrees-some d w w' (some (ns, seen)) h = (ns, ap (λ s. some (ns, s)) h.0, h.1)

module _ (c : Collation) (ous : List OrganizationalUnit) where
  build_ou_tree_of_build :
      (roots : OuTreeNodes) (visited : List String)
      → build c (suc (length ous)) ous none [] ≡ some (roots, visited)
      → visited ≡ keys roots
      → build_ou_tree c ous ≡ some (append_leaves roots (orphans c ous roots))
  unfolding build_ou_tree
  build_ou_tree_of_build roots visited e named = rw e (
      ap (λ v. some (append_leaves roots (filter (λ ou. not (has ou.id v)) (sort_ous c ous))))
        named)

  -- `buildOuTree` returns a nested part, followed by a leaf for each unit that this part leaves
  -- out, in sorted order; the list of `flattenOus` shows first the preorder of the nested part,
  -- with the depths of its nodes, and then other items. No key
  -- stands twice in the nested part, and each is an identifier of the input.
  pub build_ou_tree-flatten_ous :
      (roots : OuTreeNodes) × (items : List OuTreeItem) × (rest : List OuTreeItem) × (build_ou_tree
          c ous
        ≡ some (append_leaves roots (orphans c ous roots)))
      × (flatten_ous c ous ≡ some items)
      × (map label items ≡ preorder roots 0 ++ map label rest)
      × IsUnique (keys roots)
      × ((x : String) → has x (keys roots) ≡ true → has x (ids ous) ≡ true)
  build_ou_tree-flatten_ous =
      let p = flatten_ous-Phases ous c in
      let agreed = build-Agrees c ous (suc (length ous)) none 0 (start ous) in
      let (roots, e, shown) = Agrees-some 0 (start ous) p.rooted _ (rw p.roots_run at agreed) in
      let (rest, q) = Visits-items ous p.rest_visits in
      let i = rooted-IsConsistent ous p in
      let named : p.rooted.visited ≡ keys roots =
        sym i.named ∙ sym (keys-label p.rooted.items) ∙ ap (map (λ (l : Label). l.key)) shown in
      (
        roots,
        p.full.items,
        rest,
        build_ou_tree_of_build roots p.rooted.visited e named,
        p.run,
        ap (map label) q
            ∙ map-append label p.rooted.items rest
            ∙ ap (λ l. l ++ map label rest) shown,
        subst IsUnique named i.unique,
        λ x h.
            covers (units p.rooted.items) (ids ous) (All-has ous (units p.rooted.items) i.listed) x
              (rw (i.named, named) h),
      )

  preorder-append_leaves :
      (roots : OuTreeNodes) (os : List OrganizationalUnit)
      → keys (append_leaves roots os) ≡ keys roots ++ ids os
  preorder-append_leaves nil [] = refl
  preorder-append_leaves nil (ou ∷ os) = ap (◌∷◌ ou.id) (preorder-append_leaves nil os)
  preorder-append_leaves (cons n ns) os =
      rw (map-append, map-append, preorder-append_leaves ns os, append_assoc)

  has-filter :
      (x : String) (names : List String) (os : List OrganizationalUnit)
      → (has x names || has x (ids (filter (λ ou. not (has ou.id names)) os)))
        ≡ (has x names || has x (ids os))
  has-filter x names [] = refl
  has-filter x names (ou ∷ os) = ground (arith, has-filter x names os, eq_iff ou.id x)

  orphans-apart :
      (names : List String) (os : List OrganizationalUnit)
      → All (λ x. has x names ≡ false) (ids (filter (λ ou. not (has ou.id names)) os))
  orphans-apart names [] = tt
  orphans-apart names (ou ∷ os) = ground (arith, orphans-apart names os)

  filter-has-false :
      (x : String) (p : OrganizationalUnit → Bool) (os : List OrganizationalUnit)
      → has x (ids os) ≡ false
      → has x (ids (filter p os)) ≡ false
  filter-has-false x p [] h = refl
  filter-has-false x p (ou ∷ os) h = ground (arith, filter-has-false x p os)

  filter-IsUnique :
      (p : OrganizationalUnit → Bool) (os : List OrganizationalUnit)
      → IsUnique (ids os)
      → IsUnique (ids (filter p os))
  filter-IsUnique p [] u = tt
  filter-IsUnique p (ou ∷ os) u =
      ground (arith, filter-IsUnique p os u.1, filter-has-false ou.id p os u.0)

  within :
      (x : String) (names : List String)
      → (has x names ≡ true → has x (ids ous) ≡ true)
      → (has x names || has x (ids (sort_ous c ous))) ≡ has x (ids ous)
  within x names h = rw (sort_ous-has c x ous) (ground (arith, h))

  -- Where the identifiers are distinct, the tree is returned and its keys are the identifiers of
  -- the input, each on one node only.
  pub build_ou_tree_total :
      IsUnique (ids ous)
      → (tree : OuTreeNodes) × (build_ou_tree c ous ≡ some tree)
        × ((x : String) → has x (keys tree) ≡ has x (ids ous))
        × IsUnique (keys tree)
  build_ou_tree_total u =
      let (roots, items, rest, e, run, shown, once, known) = build_ou_tree-flatten_ous in
      let os = orphans c ous roots in
      let joined = preorder-append_leaves roots os in
      (
        append_leaves roots os,
        e,
        λ x.
            ap (has x) joined
            ∙ has-append x (keys roots) (ids os)
            ∙ has-filter x (keys roots) (sort_ous c ous)
            ∙ within x (keys roots) (known x),
        rw joined (
            IsUnique-append (keys roots) (ids os) once
              (filter-IsUnique _ (sort_ous c ous) (sort_ous-IsUnique c ous u))
              (orphans-apart (keys roots) (sort_ous c ous))),
      )
