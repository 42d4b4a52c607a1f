-- ===== src/Text/Split.antt =====
-- Splitting a joined text.
use Prim.Native.Char.{Char, code}
use Prim.Native.String
use text.Mathlib.TextLemmas.{nil-append, cons-append, append-nil}
use adscope_identity.Prelude.{
  map, String, ℕ, List, ◌≡◌, refl, ap, sym, ◌∙◌, Bool, true, false, arith, inl, inr, Bool-cases,
  eqb, All,
}
use adscope_identity.Text.{
  push_front, split_step, split, line_step, split_lines, join, lacks, blank, trim,
}
use adscope_identity.Text.Trim.{trim-blank}

-- A text before the first of the parts.
abbrev prepend : String → List String → List String
prepend x List.[] = List.[]
prepend x (List.◌∷◌ p ps) = List.◌∷◌ (String.◌++◌ x p) ps

push_front-prepend :
    (c : Char) (x : String) (parts : List String)
    → push_front c (prepend x parts) ≡ prepend (String.◌∷◌ c x) parts
unfolding push_front
push_front-prepend c x List.[] = refl
push_front-prepend c x (List.◌∷◌ p ps) = rw cons-append

prepend-nil : (parts : List String) → prepend "" parts ≡ parts
prepend-nil List.[] = refl
prepend-nil (List.◌∷◌ p ps) = rw nil-append

-- A text without the separator stays in one part.
split-append :
    (sep : ℕ) (x s : String)
    → lacks sep x ≡ true
    → split sep (String.◌++◌ x s) ≡ prepend x (split sep s)
unfolding split split_step
split-append sep String.[] s h = rw (nil-append, prepend-nil)
split-append sep (String.◌∷◌ c x) s h = elim (Bool-cases (eqb (code c) sep)) [
  | inl e ↦ ground arith
  | inr e ↦
      rw (cons-append, split, split_step, e, split-append sep x s (ground arith))
        (push_front-prepend c x (split sep s))
]

-- The separator after such a text closes the part.
split-append_sep :
    (sep : ℕ) (c : Char) (x s : String)
    → eqb (code c) sep ≡ true
    → lacks sep x ≡ true
    → split sep (String.◌++◌ x (String.◌∷◌ c s)) ≡ List.◌∷◌ x (split sep s)
unfolding split split_step
split-append_sep sep c x s e h =
    rw (split-append sep x (String.◌∷◌ c s) h, split, split_step, e, append-nil)

lacks-cons :
    (n : ℕ) (c : Char) (s : String)
    → lacks n (String.◌∷◌ c s) ≡ true
    → (eqb (code c) n ≡ false) × (lacks n s ≡ true)
lacks-cons n c s h = ground arith

line_step-visible :
    (c : Char) (b : Bool) (parts : List String)
    → eqb (code c) 10 ≡ false
    → eqb (code c) 13 ≡ false
    → line_step c b parts ≡ push_front c parts
unfolding line_step
line_step-visible c b parts h k = ground arith

split_lines-append :
    (x s : String)
    → lacks 10 x ≡ true
    → lacks 13 x ≡ true
    → split_lines (String.◌++◌ x s) ≡ prepend x (split_lines s)
unfolding split_lines
split_lines-append String.[] s h k = rw (nil-append, prepend-nil)
split_lines-append (String.◌∷◌ c x) s h k =
    let (h10, hx) = lacks-cons 10 c x h in
    let (h13, kx) = lacks-cons 13 c x k in
    rw (cons-append, split_lines, line_step-visible c _ _ h10 h13, split_lines-append x s hx kx)
      (push_front-prepend c x (split_lines s))

split_lines-append_newline :
    (x s : String)
    → lacks 10 x ≡ true
    → lacks 13 x ≡ true
    → split_lines (String.◌++◌ x (String.◌++◌ "\n" s)) ≡ List.◌∷◌ x (split_lines s)
unfolding split_lines line_step
split_lines-append_newline x s h k =
    rw (split_lines-append x (String.◌++◌ "\n" s) h k, cons-append, nil-append, append-nil)

push_front-trim :
    (c : Char) (parts : List String)
    → blank c ≡ true
    → map trim (push_front c parts) ≡ map trim parts
unfolding push_front
push_front-trim c List.[] h = refl
push_front-trim c (List.◌∷◌ p ps) h = rw (trim-blank c p h)

-- A blank before a text only adds to the first part, where trimming drops it.
split-trim :
    (sep : ℕ) (c : Char) (s : String)
    → blank c ≡ true
    → eqb (code c) sep ≡ false
    → map trim (split sep (String.◌∷◌ c s)) ≡ map trim (split sep s)
unfolding split split_step
split-trim sep c s h e = rw (split, split_step, e) (push_front-trim c (split sep s) h)

split_whole : (sep : ℕ) (x : String) → lacks sep x ≡ true → split sep x ≡ List.◌∷◌ x List.[]
unfolding split
split_whole sep x h =
    ap (split sep) (sym (append-nil x))
    ∙ split-append sep x "" h
    ∙ ap (λ y. List.◌∷◌ y List.[]) (append-nil x)

split_lines_whole :
    (x : String) → lacks 10 x ≡ true → lacks 13 x ≡ true → split_lines x ≡ List.◌∷◌ x List.[]
unfolding split_lines
split_lines_whole x h k =
    ap split_lines (sym (append-nil x))
    ∙ split_lines-append x "" h k
    ∙ ap (λ y. List.◌∷◌ y List.[]) (append-nil x)

-- A part that survives splitting at `sep` and trimming as it is.
abbrev pub IsPart : ℕ → String → Type 0
IsPart sep x = (trim x ≡ x) × (lacks sep x ≡ true)

split-comma_blank :
    (x s : String)
    → IsPart 44 x
    → map trim (split 44 (String.◌++◌ x (String.◌++◌ ", " s))) ≡ List.◌∷◌ x (map trim (split 44 s))
unfolding blank
split-comma_blank x s h =
    rw
      (
        cons-append,
        cons-append,
        nil-append,
        split-append_sep 44 "," x (String.◌∷◌ " " s) refl h.1,
        h.0,
      )
      (ap (List.◌∷◌ x) (split-trim 44 " " s refl refl))

-- Trimmed parts without a comma come back from the text that joins them by commas and blanks.
pub split-join_comma :
    (x : String) (xs : List String)
    → All (IsPart 44) (List.◌∷◌ x xs)
    → map trim (split 44 (join ", " (List.◌∷◌ x xs))) ≡ List.◌∷◌ x xs
unfolding join
split-join_comma x List.[] h = rw (split_whole 44 x h.0.1, h.0.0)
split-join_comma x (List.◌∷◌ y ys) h =
    split-comma_blank x (join ", " (List.◌∷◌ y ys)) h.0
    ∙ ap (List.◌∷◌ x) (split-join_comma y ys h.1)

-- A trimmed text of one line.
abbrev pub IsLine : String → Type 0
IsLine x = (trim x ≡ x) × (lacks 10 x ≡ true) × (lacks 13 x ≡ true)

-- Trimmed lines come back from the text that joins them by line feeds.
pub split_lines-join :
    (x : String) (xs : List String)
    → All IsLine (List.◌∷◌ x xs)
    → map trim (split_lines (join "\n" (List.◌∷◌ x xs))) ≡ List.◌∷◌ x xs
unfolding join
split_lines-join x List.[] h = rw (split_lines_whole x h.0.1 h.0.2, h.0.0)
split_lines-join x (List.◌∷◌ y ys) h =
    rw (split_lines-append_newline x (join "\n" (List.◌∷◌ y ys)) h.0.1 h.0.2, h.0.0)
      (ap (List.◌∷◌ x) (split_lines-join y ys h.1))
