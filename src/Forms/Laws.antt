-- ===== src/Forms/Laws.antt =====
-- Laws of the form parsers: their normal forms, and what they read of what the editors print.
use adscope_identity.Prelude.{
  String, ℕ, ◌≡◌, refl, ap, ◌∙◌, ◌≢◌, true, List, [], ◌∷◌, none, or_else, Option, some, map, filter,
  All, All-filter, arith, inl, inr, Bool-cases,
}
use adscope_identity.Text.{trim, trim_start, trim_end, truthy, split, join, lacks}
use adscope_identity.Text.Trim.{trim_idem}
use adscope_identity.Text.Lacks.{split-lacks, trim-lacks}
use adscope_identity.Text.Split.{IsPart, split-join_comma}
use adscope_identity.Forms.{nullable, split_members}

truthy-ne-empty : (s : String) → truthy s ≡ true → s ≢ ""
truthy-ne-empty s h = λ e. cc (ap truthy e)

-- A value other than `null` that a form field gives is not empty and has no blanks at its ends, and
-- typed again it gives itself.
pub nullable_normal :
    (value t : String) → nullable value ≡ some t → (t ≢ "") × (trim t ≡ t) × (nullable t ≡ some t)
unfolding nullable
nullable_normal value t h = elim (Bool-cases (truthy (trim value))) [
  | inl e ↦
      let same : trim value ≡ t = ground arith in
      let fixed : trim t ≡ t = rw (← same) (trim_idem value) in
      let full : truthy t ≡ true = rw (← same) e in
      (truthy-ne-empty t full, fixed, rw (fixed, full))
  | inr e ↦ absurd (ground arith)
]

nullable-blank : nullable "" ≡ none
unfolding nullable trim trim_start trim_end
nullable-blank = refl

-- Nothing, or a trimmed text that is not empty.
abbrev pub IsProper : Option String → Type 0
IsProper none = Unit
IsProper (some t) = (trim t ≡ t) × (truthy t ≡ true)

pub nullable-or_else : (o : Option String) → IsProper o → nullable (or_else o "") ≡ o
unfolding nullable
nullable-or_else none h = nullable-blank
nullable-or_else (some t) h = rw (h.0, h.1) refl

pub All-truthy : (xs : List String) → All (λ x. truthy x ≡ true) xs → filter truthy xs ≡ xs
All-truthy [] h = refl
All-truthy (x ∷ xs) h = rw (h.0, All-truthy xs h.1)

no_parts : split_members (join ", " []) ≡ []
unfolding split_members split join trim trim_start trim_end
no_parts = refl

-- The list of members that the group editor shows, joined by commas and blanks, is read back
-- whole and in its order, if no identifier is empty, holds a comma or has a blank at an end.
pub split_members-join :
    (ids : List String)
    → All (IsPart b',') ids
    → All (λ x. truthy x ≡ true) ids
    → split_members (join ", " ids) ≡ ids
unfolding split_members
split_members-join [] h k = no_parts
split_members-join (x ∷ xs) h k =
    ap (filter truthy) (split-join_comma x xs h) ∙ All-truthy (x ∷ xs) k

pub filter-truthy : (xs : List String) → All (λ x. truthy x ≡ true) (filter truthy xs)
filter-truthy [] = tt
filter-truthy (x ∷ xs) = ground (arith, filter-truthy xs)

map-trim-IsPart :
    (sep : ℕ) (xs : List String) → All (λ x. lacks sep x ≡ true) xs → All (IsPart sep) (map trim xs)
map-trim-IsPart sep [] h = tt
map-trim-IsPart sep (x ∷ xs) h = ((trim_idem x, trim-lacks sep x h.0), map-trim-IsPart sep xs h.1)

split_members-IsPart : (value : String) → All (IsPart b',') (split_members value)
unfolding split_members
split_members-IsPart value =
    All-filter (IsPart b',') truthy _ (map-trim-IsPart b',' _ (split-lacks b',' value))

-- Whatever was typed: every member that is sent is trimmed and not empty and holds no comma, and
-- the list that is sent, shown in the editor again and saved as it is, is sent again unchanged.
pub split_members_normal :
    (value : String)
    → All (IsPart b',') (split_members value)
      × All (λ x. truthy x ≡ true) (split_members value)
      × (split_members (join ", " (split_members value)) ≡ split_members value)
split_members_normal value =
    let full : All (λ x. truthy x ≡ true) (split_members value) =
      unfold split_members in filter-truthy (map trim (split b',' value)) in
    (
      split_members-IsPart value,
      full,
      split_members-join (split_members value) (split_members-IsPart value) full,
    )
