-- ===== src/Directory/Flatten.antt =====
-- Which units `flattenOus` shows.
use adscope_identity.Prelude.{
  ℕ, suc, ◌<◌, String, Bool, true, false, ◌≡◌, refl, List, [], ◌∷◌, ◌++◌, map, length, has,
  IsUnique, IsUnique-concat, none, some, arith, All, All-append, string_equality, ap, sym,
  length-filter-le, Bool-cases, inl, inr, ◌==◌, map-append, subst,
}
use mathlib.Core.List.{Memᴰ}
use text.Mathlib.TextEquality.{eq_iff}
use adscope_identity.Types.{OrganizationalUnit, OuTreeItem}
use adscope_identity.Directory.{Collation, Walk, visit, push_children, ids, flatten_ous, sort_ous}
use adscope_identity.Directory.Sort.{sort_ous-All, sort_ous-has}
use adscope_identity.Directory.Visits.{
  unvisited, Visits, here, next, Visits-unvisited-le, push_all-Returns, push_children-Terminates,
  All-listed, has-of_mem,
}

-- The units of a list of items, in its order.
abbrev pub units : List OuTreeItem → List OrganizationalUnit
units items = map (λ i. i.ou) items

length-ids : (ous : List OrganizationalUnit) → length (ids ous) ≡ length ous
length-ids [] = refl
length-ids (ou ∷ ous) = ap suc (length-ids ous)

-- The visited set holds the identifiers of the items, each once, and the items show listed units.
pub record IsConsistent (ous : List OrganizationalUnit) (w : Walk) : Type 0 where
  pub named : ids (units w.items) ≡ w.visited
  pub unique : IsUnique w.visited
  pub listed : All (λ ou. Memᴰ ou ous) (units w.items)

module _ (ous : List OrganizationalUnit) where
  ids-visit :
      (ou : OrganizationalUnit) (d : ℕ) (w : Walk)
      → ids (units w.items) ≡ w.visited
      → ids (units (visit ou d w).items) ≡ w.visited ++ ou.id ∷ []
  ids-visit ou d w h = rw (map-append, map-append, h)

  listed-visit :
      (ou : OrganizationalUnit) (d : ℕ) (w : Walk)
      → All (λ o. Memᴰ o ous) (units w.items)
      → Memᴰ ou ous
      → All (λ o. Memᴰ o ous) (units (visit ou d w).items)
  listed-visit ou d w h m =
      rw map-append (All-append (λ o. Memᴰ o ous) (units w.items) (ou ∷ []) h (m, tt))

  pub Visits-IsConsistent : {a b : Walk} → IsConsistent ous a → Visits ous a b → IsConsistent ous b
  Visits-IsConsistent i here = i
  Visits-IsConsistent i (next ou d u v m h) =
      let k = Visits-IsConsistent i v in
      record {
        named = ids-visit ou d u k.named;
        unique = IsUnique-concat ou.id u.visited k.unique h;
        listed = listed-visit ou d u k.listed m;
      }

  abbrev pub start : Walk
  start = record { visited = []; items = [] }

  start-IsConsistent : IsConsistent ous start
  start-IsConsistent = record { named = refl; unique = tt; listed = tt }

  start_unvisited : unvisited (ids ous) [] < suc (length ous)
  start_unvisited = omega (arith, length-filter-le (λ (x : String). true) (ids ous), length-ids ous)

  -- The two phases of the function: from the units without a parent, and from the rest.
  pub record Phases (c : Collation) : Type 0 where
    pub rooted : Walk
    pub full : Walk
    pub roots_run : push_children c (suc (length ous)) ous none 0 start ≡ some rooted
    pub run : flatten_ous c ous ≡ some full.items
    pub roots_visits : Visits ous start rooted
    pub rest_visits : Visits ous rooted full
    pub all_visited : All (λ ou. has ou.id full.visited ≡ true) (sort_ous c ous)

  -- The function returns, having visited every unit.
  pub flatten_ous-Phases : (c : Collation) → Phases c
  unfolding flatten_ous
  flatten_ous-Phases c =
      let n = suc (length ous) in
      let below = push_children c n ous in
      let t = push_children-Terminates ous c n in
      let (rooted, e, v) = t none 0 start start_unvisited in
      let (full, e', v', ks) =
        push_all-Returns ous n below 0 (sort_ous c ous) rooted t
          (sort_ous-All c (λ ou. Memᴰ ou ous) ous (All-listed ous))
          (omega (arith, Visits-unvisited-le ous v, start_unvisited)) in
      record {
        rooted = rooted;
        full = full;
        roots_run = e;
        run = rw (e, e') refl;
        roots_visits = v;
        rest_visits = v';
        all_visited = ks;
      }

  pub rooted-IsConsistent : {c : Collation} (p : Phases c) → IsConsistent ous p.rooted
  rooted-IsConsistent p = Visits-IsConsistent start-IsConsistent p.roots_visits

pub covers :
    (l : List OrganizationalUnit) (names : List String)
    → All (λ ou. has ou.id names ≡ true) l
    → (x : String) → has x (ids l) ≡ true
    → has x names ≡ true
covers [] names h x k = absurd (ground arith)
covers (ou ∷ l) names h x k = elim (Bool-cases (ou.id == x)) [
  | inl e ↦ subst (λ y. has y names ≡ true) ((eq_iff ou.id x).0 e) h.0
  | inr e ↦ covers l names h.1 x (ground arith)
]

pub All-has :
    (ous l : List OrganizationalUnit)
    → All (λ ou. Memᴰ ou ous) l
    → All (λ ou. has ou.id (ids ous) ≡ true) l
All-has ous [] h = tt
All-has ous (ou ∷ l) h = (has-of_mem ou ous h.0, All-has ous l h.1)

pub Bool-ext : (a b : Bool) → (a ≡ true → b ≡ true) → (b ≡ true → a ≡ true) → a ≡ b
Bool-ext true b f g = sym (f refl)
Bool-ext false true f g = g refl
Bool-ext false false f g = refl

-- For every list of organizational units, also one with repeated identifiers, missing parents or
-- cycles of parents, the function returns; it shows only units of the list, no identifier twice,
-- and exactly the identifiers of the list.
pub flatten_ous_total :
    (c : Collation) (ous : List OrganizationalUnit)
    → (items : List OuTreeItem) × (flatten_ous c ous ≡ some items)
      × All (λ ou. Memᴰ ou ous) (units items)
      × IsUnique (ids (units items))
      × ((x : String) → has x (ids (units items)) ≡ has x (ids ous))
flatten_ous_total c ous =
    let p = flatten_ous-Phases ous c in
    let w = p.full in
    let i = Visits-IsConsistent ous (rooted-IsConsistent ous p) p.rest_visits in
    (
      w.items,
      p.run,
      i.listed,
      rw i.named i.unique,
      λ x.
          Bool-ext _ _ (covers (units w.items) (ids ous) (All-has ous (units w.items) i.listed) x)
            (λ h.
              rw i.named
                (covers (sort_ous c ous) w.visited p.all_visited x (rw (sort_ous-has c x ous) h))),
    )
