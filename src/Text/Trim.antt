-- ===== src/Text/Trim.antt =====
-- Trimming, and texts without blanks at their ends.
use Prim.Native.Char.{Char}
use adscope_identity.Prelude.{String, ◌≡◌, refl, ap, ◌∙◌, true, false, inl, inr, Bool-cases}
use adscope_identity.Text.{blank, trim_start, keep_end, trim_end, trim}

-- The text is empty or begins with a visible character.
abbrev BeginsVisibly : String → Type 0
BeginsVisibly String.[] = Unit
BeginsVisibly (String.◌∷◌ c s) = blank c ≡ false

trim_start-BeginsVisibly : (s : String) → BeginsVisibly (trim_start s)
unfolding trim_start
trim_start-BeginsVisibly String.[] = tt
trim_start-BeginsVisibly (String.◌∷◌ c s) = elim (Bool-cases (blank c)) [
  | inl e ↦ rw e (trim_start-BeginsVisibly s)
  | inr e ↦ rw e e
]

trim_start-eq_of_BeginsVisibly : (s : String) → BeginsVisibly s → trim_start s ≡ s
unfolding trim_start
trim_start-eq_of_BeginsVisibly String.[] h = refl
trim_start-eq_of_BeginsVisibly (String.◌∷◌ c s) h = rw h

keep_end-visible : (c : Char) (s : String) → blank c ≡ false → keep_end c s ≡ String.◌∷◌ c s
unfolding keep_end
keep_end-visible c String.[] h = rw h
keep_end-visible c (String.◌∷◌ d s) h = refl

trim_end-BeginsVisibly : (s : String) → BeginsVisibly s → BeginsVisibly (trim_end s)
unfolding trim_end
trim_end-BeginsVisibly String.[] h = tt
trim_end-BeginsVisibly (String.◌∷◌ c s) h = rw (keep_end-visible c (trim_end s) h) h

trim_end-keep_end :
    (c : Char) (s : String) → trim_end s ≡ s → trim_end (keep_end c s) ≡ keep_end c s
unfolding trim_end keep_end
trim_end-keep_end c String.[] h = elim (Bool-cases (blank c)) [ inl e ↦ rw e | inr e ↦ rw (e, e) ]
trim_end-keep_end c (String.◌∷◌ d s) h = rw (h, keep_end)

trim_end_idem : (s : String) → trim_end (trim_end s) ≡ trim_end s
unfolding trim_end
trim_end_idem String.[] = refl
trim_end_idem (String.◌∷◌ c s) = trim_end-keep_end c (trim_end s) (trim_end_idem s)

-- Trimming a trimmed text changes nothing.
pub trim_idem : (s : String) → trim (trim s) ≡ trim s
unfolding trim
trim_idem s =
    ap trim_end (
      trim_start-eq_of_BeginsVisibly (trim_end (trim_start s))
        (trim_end-BeginsVisibly (trim_start s) (trim_start-BeginsVisibly s)))
    ∙ trim_end_idem (trim_start s)

-- A blank at the front is dropped.
pub trim-blank : (c : Char) (s : String) → blank c ≡ true → trim (String.◌∷◌ c s) ≡ trim s
unfolding trim trim_start
trim-blank c s h = rw h
