-- ===== src/View/Offers.antt =====
-- Which forms of a view can be sent.
use adscope_identity.Prelude.{
  String, Bool, false, not, ◌&&◌, ◌||◌, ◌==◌, string_equality, ◌≡◌, refl, arith, List, [], ◌∷◌,
  ◌++◌, any,
}
use adscope_identity.View.{Element, submit, decision, for_each}

-- A submit button of the form that is not disabled.
abbrev pub submits : {I : Type 0} → String → Element I → Bool
submits id (submit label disabled form_id) = (form_id == id) && not disabled
submits id _ = false

-- A submit button that sends the value and is not disabled.
abbrev pub decides : {I : Type 0} → String → Element I → Bool
decides answer (decision label value disabled) = (value == answer) && not disabled
decides answer _ = false

abbrev pub can_submit : {I : Type 0} → String → List (Element I) → Bool
can_submit id elements = any (submits id) elements

abbrev pub can_decide : {I : Type 0} → String → List (Element I) → Bool
can_decide answer elements = any (decides answer) elements

module _ {ℓ} {A : Type ℓ} (p : A → Bool) where
  pub any-append : (xs ys : List A) → any p (xs ++ ys) ≡ (any p xs || any p ys)
  any-append [] ys = refl
  any-append (x ∷ xs) ys = ground (arith, any-append xs ys)

  -- Lists without such an element may be left out.
  pub any-after : (xs ys : List A) → any p xs ≡ false → any p (xs ++ ys) ≡ any p ys
  any-after xs ys h = ground (arith, any-append xs ys)

  pub any-for_each {κ} :
      {B : Type κ} (xs : List B) (f : B → List A)
      → ((x : B) → any p (f x) ≡ false)
      → any p (for_each xs f) ≡ false
  any-for_each [] f h = refl
  any-for_each (x ∷ xs) f h =
      ground (arith, any-append (f x) (for_each xs f), h x, any-for_each xs f h)
