-- ===== src/View/Laws.antt =====
-- Predicates on all elements of a view.
use adscope_identity.Prelude.{
  Bool, true, false, ◌≡◌, refl, List, [], ◌∷◌, All, All-append, if◌then◌else◌,
}
use adscope_identity.View.{
  Element, title, words, button, form, submit, post_form, hidden, decision, input, toggle, choice,
  table, row, plain_row, when, for_each, is_held,
}

module _ {ℓ κ} {A : Type ℓ} where
  pub All-when : (P : A → Type κ) (b : Bool) (xs : List A) → All P xs → All P (when b xs)
  All-when P true xs h = h
  All-when P false xs h = tt

  pub All-if :
      (P : A → Type κ) (b : Bool) (xs ys : List A)
      → All P xs
      → All P ys
      → All P (if b then xs else ys)
  All-if P true xs ys h g = h
  All-if P false xs ys h g = g

pub All-for_each {ℓ κ μ} :
    {A : Type ℓ} {B : Type κ} (P : B → Type μ) (xs : List A) (f : A → List B)
    → ((x : A) → All P (f x))
    → All P (for_each xs f)
All-for_each P [] f h = tt
All-for_each P (x ∷ xs) f h = All-append P (f x) (for_each xs f) (h x) (All-for_each P xs f h)

module _ {I : Type 0} (changes : I → Bool) where
  -- All elements of a view are held back while `test` holds.
  abbrev pub AllHeld : Bool → List (Element I) → Type 0
  AllHeld test elements = All (λ e. is_held test changes e ≡ true) elements

  is_held-false : (e : Element I) → is_held false changes e ≡ true
  is_held-false (title t) = refl
  is_held-false (words t) = refl
  is_held-false (button label d i) = refl
  is_held-false (form id i) = refl
  is_held-false (submit label d id) = refl
  is_held-false (post_form action) = refl
  is_held-false (hidden name value) = refl
  is_held-false (decision label value d) = refl
  is_held-false (input label value r d) = refl
  is_held-false (toggle label value d) = refl
  is_held-false (choice label value r d options) = refl
  is_held-false (table empty_text loading columns) = refl
  is_held-false (row cells i) = refl
  is_held-false (plain_row cells) = refl

  all_false : (xs : List (Element I)) → AllHeld false xs
  all_false [] = tt
  all_false (x ∷ xs) = (is_held-false x, all_false xs)

  pub AllHeld-of_true :
      (b : Bool) (xs : List (Element I)) → (b ≡ true → AllHeld true xs) → AllHeld b xs
  AllHeld-of_true true xs h = h refl
  AllHeld-of_true false xs h = all_false xs
