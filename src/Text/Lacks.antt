-- ===== src/Text/Lacks.antt =====
-- Texts without a character, in splitting and trimming.
use Prim.Native.Char.{Char, code}
use adscope_identity.Prelude.{
  String, ℕ, List, ◌≡◌, refl, true, false, arith, inl, inr, Bool-cases, eqb, All,
}
use adscope_identity.Text.{
  blank, trim_start, keep_end, trim_end, trim, push_front, split_step, split, lacks,
}

push_front-lacks :
    (sep : ℕ) (c : Char) (parts : List String)
    → eqb (code c) sep ≡ false
    → All (λ p. lacks sep p ≡ true) parts
    → All (λ p. lacks sep p ≡ true) (push_front c parts)
unfolding push_front
push_front-lacks sep c List.[] e h = tt
push_front-lacks sep c (List.◌∷◌ p ps) e h = (rw e h.0, h.1)

-- No part of a split text holds the separator.
pub split-lacks : (sep : ℕ) (s : String) → All (λ p. lacks sep p ≡ true) (split sep s)
unfolding split split_step
split-lacks sep String.[] = (refl, tt)
split-lacks sep (String.◌∷◌ c s) = elim (Bool-cases (eqb (code c) sep)) [
  | inl e ↦ rw (e, split_step) (refl, split-lacks sep s)
  | inr e ↦ rw (e, split_step) (push_front-lacks sep c (split sep s) e (split-lacks sep s))
]

trim_start-lacks : (n : ℕ) (s : String) → lacks n s ≡ true → lacks n (trim_start s) ≡ true
unfolding trim_start
trim_start-lacks n String.[] h = refl
trim_start-lacks n (String.◌∷◌ c s) h = ground (arith, trim_start-lacks n s)

keep_end-lacks :
    (n : ℕ) (c : Char) (s : String)
    → eqb (code c) n ≡ false
    → lacks n s ≡ true
    → lacks n (keep_end c s) ≡ true
unfolding keep_end
keep_end-lacks n c String.[] e h = elim (Bool-cases (blank c)) [
  | inl b ↦ rw b refl
  | inr b ↦ rw (b, e) refl
]
keep_end-lacks n c (String.◌∷◌ d s) e h = rw e h

trim_end-lacks : (n : ℕ) (s : String) → lacks n s ≡ true → lacks n (trim_end s) ≡ true
unfolding trim_end
trim_end-lacks n String.[] h = refl
trim_end-lacks n (String.◌∷◌ c s) h =
    keep_end-lacks n c (trim_end s) (ground arith) (trim_end-lacks n s (ground arith))

pub trim-lacks : (n : ℕ) (s : String) → lacks n s ≡ true → lacks n (trim s) ≡ true
unfolding trim
trim-lacks n s h = trim_end-lacks n (trim_start s) (trim_start-lacks n s h)
