-- ===== src/Text.antt =====
-- The operations of JavaScript strings that the portal calls: `trim`, `split` and `join`.
pub mod Trim
pub mod Split
pub mod Lacks
pub mod Decimal
use Prim.Native.Char.{Char, code}
use Prim.Native.String
use adscope_identity.Prelude.{
  String, ℕ, Bool, ◌&&◌, ◌||◌, List, ◌≡◌, leb, eqb, if◌then◌else◌, true, false, ◌==◌,
}
use mathlib.Core.List

-- The white space and line ends of ECMAScript.
abbrev pub is_space : ℕ → Bool
is_space n =
    (leb 9 n && leb n 13)
    || eqb n 32
    || eqb n 0xA0
    || eqb n 0x1680
    || (leb 0x2000 n && leb n 0x200A)
    || eqb n 0x2028
    || eqb n 0x2029
    || eqb n 0x202F
    || eqb n 0x205F
    || eqb n 0x3000
    || eqb n 0xFEFF

unfoldable pub blank : Char → Bool
blank c = is_space (code c)

unfoldable pub trim_start : String → String
trim_start String.[] = ""
trim_start (String.◌∷◌ c s) = if blank c then trim_start s else String.◌∷◌ c s

-- A character before a text that is trimmed at its end.
unfoldable pub keep_end : Char → String → String
keep_end c String.[] = if blank c then "" else String.◌∷◌ c ""
keep_end c (String.◌∷◌ d s) = String.◌∷◌ c (String.◌∷◌ d s)

unfoldable pub trim_end : String → String
trim_end String.[] = ""
trim_end (String.◌∷◌ c s) = keep_end c (trim_end s)

-- `s.trim()`
unfoldable pub trim : String → String
trim s = trim_end (trim_start s)

-- `Boolean(s)`, and `s.length > 0`
abbrev pub truthy : String → Bool
truthy String.[] = false
truthy (String.◌∷◌ c s) = true

-- A character before the first of the parts.
unfoldable pub push_front : Char → List String → List String
push_front c List.[] = List.[]
push_front c (List.◌∷◌ p ps) = List.◌∷◌ (String.◌∷◌ c p) ps

unfoldable pub split_step : ℕ → Char → List String → List String
split_step sep c parts = if eqb (code c) sep then List.◌∷◌ "" parts else push_front c parts

-- `s.split(sep)` for a separator of one character.
unfoldable pub split : ℕ → String → List String
split sep String.[] = List.◌∷◌ "" List.[]
split sep (String.◌∷◌ c s) = split_step sep c (split sep s)

abbrev pub starts_with_code : ℕ → String → Bool
starts_with_code n String.[] = false
starts_with_code n (String.◌∷◌ c s) = eqb (code c) n

-- A carriage return before a line feed belongs to the line end, whose part stands in `parts`.
unfoldable pub line_step : Char → Bool → List String → List String
line_step c before_newline parts =
    if eqb (code c) 10
    then List.◌∷◌ "" parts
    else if eqb (code c) 13 && before_newline
    then parts
    else push_front c parts

-- `s.split(/\r?\n/)`
unfoldable pub split_lines : String → List String
split_lines String.[] = List.◌∷◌ "" List.[]
split_lines (String.◌∷◌ c s) = line_step c (starts_with_code 10 s) (split_lines s)

-- `parts.join(sep)`
unfoldable pub join : String → List String → String
join sep List.[] = ""
join sep (List.◌∷◌ x List.[]) = x
join sep (List.◌∷◌ x (List.◌∷◌ y ys)) = String.◌++◌ x (String.◌++◌ sep (join sep (List.◌∷◌ y ys)))

-- A text that holds no character of the given code.
abbrev pub lacks : ℕ → String → Bool
lacks n String.[] = true
lacks n (String.◌∷◌ c s) = if eqb (code c) n then false else lacks n s
