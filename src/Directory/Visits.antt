-- ===== src/Directory/Visits.antt =====
-- The traversal of `flattenOus` as a step relation, in which each step visits one more unit of the
-- input; and its fuel.
use adscope_identity.Prelude.{
  ℕ, zero, suc, ◌+◌, ◌≤◌, ◌<◌, String, true, false, not, ◌≡◌, refl, List, [], ◌∷◌, ◌++◌, filter,
  length, has, has-append, Option, some, arith, All, string_equality, Bool-cases, inl, inr, ap,
}
use mathlib.Core.List.{Memᴰ}
use text.Mathlib.TextEquality.{eq_iff}
use adscope_identity.Types.{OrganizationalUnit}
use adscope_identity.Directory.{
  Collation, Walk, visit, push_one, push_all, push_children, ids, children,
}
use adscope_identity.Directory.Children.{children-All}

-- How many identifiers are not yet visited.
abbrev pub unvisited : List String → List String → ℕ
unvisited names visited = length (filter (λ x. not (has x visited)) names)

unvisited-le :
    (names visited : List String) (a : String)
    → unvisited names (visited ++ a ∷ []) ≤ unvisited names visited
unvisited-le [] visited a = omega arith
unvisited-le (x ∷ names) visited a =
    ground (arith, unvisited-le names visited a, has-append x visited (a ∷ []))

unvisited-lt :
    (names visited : List String) (a : String)
    → has a names ≡ true
    → has a visited ≡ false
    → unvisited names (visited ++ a ∷ []) < unvisited names visited
unvisited-lt [] visited a h k = absurd (ground arith)
unvisited-lt (x ∷ names) visited a h k = ground (
  arith,
  unvisited-le names visited a,
  unvisited-lt names visited a,
  has-append x visited (a ∷ []),
  eq_iff x a,
  eq_iff a x,
)

pub has-of_mem :
    (ou : OrganizationalUnit) (ous : List OrganizationalUnit)
    → Memᴰ ou ous
    → has ou.id (ids ous) ≡ true
has-of_mem ou [] m = elim m [ ]
has-of_mem ou (o ∷ os) (Memᴰ.head e) =
    ground (arith, eq_iff o.id ou.id, ap (λ (u : OrganizationalUnit). u.id) e)
has-of_mem ou (o ∷ os) (Memᴰ.tail m) = ground (arith, has-of_mem ou os m)

module _ (ous : List OrganizationalUnit) where
  -- The second walk continues the first by visiting units of the input that were not visited.
  pub data Visits (w : Walk) : Walk → Type 0 where
    here : Visits w w
    next :
        (ou : OrganizationalUnit) (depth : ℕ) (u : Walk)
        → Visits w u
        → Memᴰ ou ous
        → has ou.id u.visited ≡ false
        → Visits w (visit ou depth u)

  pub Visits-trans : {a b c : Walk} → Visits a b → Visits b c → Visits a c
  Visits-trans v here = v
  Visits-trans v (next ou depth u w m h) = next ou depth u (Visits-trans v w) m h

  pub Visits-unvisited-le :
      {a b : Walk} → Visits a b → unvisited (ids ous) b.visited ≤ unvisited (ids ous) a.visited
  Visits-unvisited-le here = omega arith
  Visits-unvisited-le (next ou depth u v m h) =
      omega (arith, Visits-unvisited-le v, unvisited-le (ids ous) u.visited ou.id)

  pub Visits-has :
      {a b : Walk} → Visits a b → (x : String) → has x a.visited ≡ true → has x b.visited ≡ true
  Visits-has here x h = h
  Visits-has (next ou depth u v m _) x h =
      ground (arith, Visits-has v x h, has-append x u.visited (ou.id ∷ []))

  has-visit : (ou : OrganizationalUnit) (d : ℕ) (w : Walk) → has ou.id (visit ou d w).visited ≡ true
  has-visit ou d w = ground (arith, has-append ou.id w.visited (ou.id ∷ []), eq_iff ou.id ou.id)

  -- The call returns, and only makes such steps.
  abbrev pub Returns : Walk → Option Walk → Type 0
  Returns w r = (w' : Walk) × (r ≡ some w') × Visits w w'

  abbrev pub Terminates : ℕ → (Option String → ℕ → Walk → Option Walk) → Type 0
  Terminates fuel below =
      (p : Option String) (d : ℕ) (w : Walk)
      → unvisited (ids ous) w.visited < fuel
      → Returns w (below p d w)

  push_one-Returns :
      (fuel : ℕ) (below : Option String → ℕ → Walk → Option Walk) (d : ℕ) (ou : OrganizationalUnit)
      (w : Walk)
      → Terminates fuel below
      → Memᴰ ou ous
      → unvisited (ids ous) w.visited < suc fuel
      → (w' : Walk) × (push_one below d ou w ≡ some w')
        × Visits w w'
        × (has ou.id w'.visited ≡ true)
  unfolding push_one
  push_one-Returns fuel below d ou w t m h = elim (Bool-cases (has ou.id w.visited)) [
    | inl old ↦ (w, rw old, here, old)
    | inr new ↦
        let (w', e, v) =
          t (some ou.id) (d + 1) (visit ou d w)
            (omega (arith, unvisited-lt (ids ous) w.visited ou.id (has-of_mem ou ous m) new)) in
        (
          w',
          rw new e,
          Visits-trans (next ou d w here m new) v,
          Visits-has v ou.id (has-visit ou d w),
        )
  ]

  -- The loop returns, and then every unit of its list is visited.
  pub push_all-Returns :
      (fuel : ℕ) (below : Option String → ℕ → Walk → Option Walk) (d : ℕ)
      (l : List OrganizationalUnit) (w : Walk)
      → Terminates fuel below
      → All (λ ou. Memᴰ ou ous) l
      → unvisited (ids ous) w.visited < suc fuel
      → (w' : Walk) × (push_all below d l w ≡ some w')
        × Visits w w'
        × All (λ ou. has ou.id w'.visited ≡ true) l
  unfolding push_all
  push_all-Returns fuel below d [] w t m h = (w, refl, here, tt)
  push_all-Returns fuel below d (ou ∷ l) w t m h =
      let (u, e, v, k) = push_one-Returns fuel below d ou w t m.0 h in
      let (w', e', v', ks) =
        push_all-Returns fuel below d l u t m.1 (omega (arith, Visits-unvisited-le v)) in
      (w', rw e e', Visits-trans v v', (Visits-has v' ou.id k, ks))

  All-Memᴰ :
      (l : List OrganizationalUnit)
      → ((ou : OrganizationalUnit) → Memᴰ ou l → Memᴰ ou ous)
      → All (λ ou. Memᴰ ou ous) l
  All-Memᴰ [] h = tt
  All-Memᴰ (o ∷ os) h = (h o (Memᴰ.head refl), All-Memᴰ os (λ ou m. h ou (Memᴰ.tail m)))

  pub All-listed : All (λ ou. Memᴰ ou ous) ous
  All-listed = All-Memᴰ ous (λ ou m. m)

  -- More fuel than units not yet visited is enough for every call of `pushChildren`.
  pub push_children-Terminates :
      (c : Collation) (fuel : ℕ) → Terminates fuel (push_children c fuel ous)
  unfolding push_children
  push_children-Terminates c zero p d w h = absurd (omega arith)
  push_children-Terminates c (suc fuel) p d w h =
      let (w', e, v, _) =
        push_all-Returns fuel (push_children c fuel ous) d (children c ous p) w
          (push_children-Terminates c fuel) (children-All c (λ ou. Memᴰ ou ous) ous p All-listed)
          h in
      (w', e, v)
