-- ===== src/View.antt =====
-- What a page shows, apart from its layout, icons, styles, placeholders and help texts: a template is
-- the list of its visible elements in their order, with `v-if` and `v-for` as functions, and with the
-- intents of its handlers. A field that is `readonly` counts as disabled, and of the checks that the
-- browser makes of a field, `required` only is there.
pub mod Laws
pub mod Offers
use adscope_identity.Prelude.{
  String, Bool, true, false, not, ◌&&◌, ◌||◌, ◌==◌, string_equality, if◌then◌else◌, List, [], ◌∷◌,
  ◌++◌, map, any,
}

pub record SelectOption : Type 0 where
  pub value : String
  pub label : String
  pub disabled : Bool

-- Elements of a page whose handlers have the intents `I`. A form stands before its inputs; a submit
-- button names the form to which it belongs.
pub data Element (I : Type 0) : Type 0 where
  title : String → Element I
  words : String → Element I
  button : (label : String) (disabled : Bool) → I → Element I
  form : (id : String) → I → Element I
  submit : (label : String) (disabled : Bool) (form_id : String) → Element I
  -- A form that the browser sends itself, its fields that are not shown, and its submit buttons, which
  -- bear a value.
  post_form : (action : String) → Element I
  hidden : (name value : String) → Element I
  decision : (label value : String) (disabled : Bool) → Element I
  input : (label value : String) (required disabled : Bool) → Element I
  toggle : (label : String) (value disabled : Bool) → Element I
  choice : (label value : String) (required disabled : Bool) → List SelectOption → Element I
  -- A table, whose rows follow: what it says without rows, whether it loads, and its columns.
  table : (empty_text : String) (loading : Bool) (columns : List String) → Element I
  -- A row of a table, with what a click on it does.
  row : (cells : List String) → I → Element I
  -- A row without a handler.
  plain_row : (cells : List String) → Element I

-- `v-if`
abbrev pub when {ℓ} : {A : Type ℓ} → Bool → List A → List A
when test elements = if test then elements else []

-- `v-for`
abbrev pub for_each {ℓ κ} : {A : Type ℓ} {B : Type κ} → List A → (A → List B) → List B
for_each [] f = []
for_each (x ∷ xs) f = f x ++ for_each xs f

-- While `test` holds, the element starts none of the intents `changes`: a button or row that has one is
-- disabled, and so is every submit button.
abbrev pub is_held : {I : Type 0} → Bool → (I → Bool) → Element I → Bool
is_held test changes (button label disabled i) = not test || (not (changes i) || disabled)
is_held test changes (row cells i) = not test || not (changes i)
is_held test changes (submit label disabled form_id) = not test || disabled
is_held test changes (decision label value disabled) = not test || disabled
is_held test changes _ = true
