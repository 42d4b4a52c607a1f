-- ===== src/AdminShell/Paths.antt =====
-- The paths of the navigation: slashes at the end, and what a path begins with.
use Prim.Native.Char.{Char, code}
use Prim.Native.String
use adscope_identity.Prelude.{
  String, true, ◌≡◌, refl, ap, ◌∙◌, sym, subst, ◌⊎◌, inl, inr, Bool-cases, eqb, arith,
}
use adscope_identity.Text.{truthy}
use text.Mathlib.TextLemmas.{cons-append}
use adscope_identity.AdminShell.{keep_slash, drop_slashes, or_root, trimmed_path, starts_with}

drop_slashes-keep_slash :
    (c : Char) (s : String) → drop_slashes s ≡ s → drop_slashes (keep_slash c s) ≡ keep_slash c s
unfolding drop_slashes keep_slash
drop_slashes-keep_slash c String.[] h = elim (Bool-cases (eqb (code c) 47)) [
  | inl e ↦ rw e
  | inr e ↦ rw (e, e)
]
drop_slashes-keep_slash c (String.◌∷◌ d s) h = rw (h, keep_slash)

drop_slashes_idem : (s : String) → drop_slashes (drop_slashes s) ≡ drop_slashes s
unfolding drop_slashes
drop_slashes_idem String.[] = refl
drop_slashes_idem (String.◌∷◌ c s) =
    drop_slashes-keep_slash c (drop_slashes s) (drop_slashes_idem s)

drop_slashes-slash : (s : String) → drop_slashes (String.◌++◌ s "/") ≡ drop_slashes s
unfolding drop_slashes keep_slash
drop_slashes-slash String.[] = refl
drop_slashes-slash (String.◌∷◌ c s) = rw (cons-append, drop_slashes, drop_slashes-slash s)

trimmed_path-or_root : (s : String) → drop_slashes s ≡ s → trimmed_path (or_root s) ≡ or_root s
unfolding trimmed_path drop_slashes keep_slash
trimmed_path-or_root String.[] h = refl
trimmed_path-or_root (String.◌∷◌ c s) h = rw h refl

or_root-truthy : (s : String) → truthy (or_root s) ≡ true
or_root-truthy String.[] = refl
or_root-truthy (String.◌∷◌ c s) = refl

-- A path is normalized once and for all, it is never empty, and it does not matter whether a slash
-- stands at its end.
pub trimmed_path_normal :
    (path : String)
    → (trimmed_path (trimmed_path path) ≡ trimmed_path path)
      × (trimmed_path (String.◌++◌ path "/") ≡ trimmed_path path)
      × (truthy (trimmed_path path) ≡ true)
unfolding trimmed_path
trimmed_path_normal path = (
  trimmed_path-or_root (drop_slashes path) (drop_slashes_idem path),
  ap or_root (drop_slashes-slash path),
  or_root-truthy (drop_slashes path),
)

starts_with-same :
    (c d : Char) (start text : String)
    → code c ≡ code d
    → starts_with (String.◌∷◌ c start) (String.◌∷◌ d text) ≡ starts_with start text
unfolding starts_with
starts_with-same c d start text h = ground arith

starts_with-parts :
    (c d : Char) (start text : String)
    → starts_with (String.◌∷◌ c start) (String.◌∷◌ d text) ≡ true
    → (code c ≡ code d) × (starts_with start text ≡ true)
unfolding starts_with
starts_with-parts c d start text h = ground arith

-- Of two texts that a text begins with, one begins with the other.
pub starts_with-either :
    (a b text : String)
    → starts_with a text ≡ true
    → starts_with b text ≡ true
    → (starts_with a b ≡ true) ⊎ (starts_with b a ≡ true)
unfolding starts_with
starts_with-either String.[] b text h k = inl refl
starts_with-either (String.◌∷◌ c a) String.[] text h k = inr refl
starts_with-either (String.◌∷◌ c a) (String.◌∷◌ d b) String.[] h k = absurd (ground arith)
starts_with-either (String.◌∷◌ c a) (String.◌∷◌ d b) (String.◌∷◌ e text) h k =
    let (hc, ha) = starts_with-parts c e a text h in
    let (hd, hb) = starts_with-parts d e b text k in
    elim (starts_with-either a b text ha hb) [
      | inl o ↦ inl (starts_with-same c d a b (hc ∙ sym hd) ∙ o)
      | inr o ↦ inr (starts_with-same d c b a (hd ∙ sym hc) ∙ o)
    ]

pub starts_with_refl : (text : String) → starts_with text text ≡ true
unfolding starts_with
starts_with_refl String.[] = refl
starts_with_refl (String.◌∷◌ c text) = starts_with-same c c text text refl ∙ starts_with_refl text

-- A text begins with what a text begins with that stands at its front.
pub starts_with-shorter :
    (a b text : String) → starts_with (String.◌++◌ a b) text ≡ true → starts_with a text ≡ true
unfolding starts_with
starts_with-shorter String.[] b text h = refl
starts_with-shorter (String.◌∷◌ c a) b String.[] h =
    let k : starts_with (String.◌∷◌ c (String.◌++◌ a b)) "" ≡ true =
      subst (λ t. starts_with t "" ≡ true) (cons-append c a b) h in
    absurd (ground arith)
starts_with-shorter (String.◌∷◌ c a) b (String.◌∷◌ d text) h =
    let k : starts_with (String.◌∷◌ c (String.◌++◌ a b)) (String.◌∷◌ d text) ≡ true =
      subst (λ t. starts_with t (String.◌∷◌ d text) ≡ true) (cons-append c a b) h in
    let (hc, ha) = starts_with-parts c d (String.◌++◌ a b) text k in
    starts_with-same c d a text hc ∙ starts_with-shorter a b text ha
