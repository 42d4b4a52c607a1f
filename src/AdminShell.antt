-- ===== src/AdminShell.antt =====
-- portal/web/app/components/admin/AdminShell.vue: the frame of the pages of the administrator, with
-- the navigation bar and the form for the management token.
pub mod Paths
pub mod Navigation
pub mod Programs
pub mod Session
pub mod Pages
pub mod Tests
use Prim.Native.Char.{Char, code}
use Prim.Native.String
use adscope_identity.Prelude.{
  ℕ, String, Bool, true, false, ◌||◌, ◌==◌, string_equality, ltb, eqb, if◌then◌else◌, Option, none,
  some, List, [], ◌∷◌, map, filter,
}
use adscope_identity.Text.{truthy}

-- The ref of the form.
pub record Shell : Type 0 where
  pub credential_draft : String

pub record NavigationItem : Type 0 where
  pub to : String
  pub label : String
  pub icon : String

abbrev pub navigation_items : List NavigationItem
navigation_items =
    record { to = "/admin/directory"; label = "目录"; icon = "ph:folders" }
    ∷ record { to = "/admin/domains"; label = "域"; icon = "ph:buildings" }
    ∷ record { to = "/admin/clients"; label = "应用接入"; icon = "ph:key" }
    ∷ []

-- The property `busy`, and the number of requests in flight.
abbrev pub shell_busy : Option Bool → ℕ → Bool
shell_busy none pending = ltb 0 pending
shell_busy (some busy) pending = busy || ltb 0 pending

-- A character before a text without slashes at its end.
unfoldable pub keep_slash : Char → String → String
keep_slash c String.[] = if eqb (code c) 47 then "" else String.◌∷◌ c ""
keep_slash c (String.◌∷◌ d s) = String.◌∷◌ c (String.◌∷◌ d s)

-- `path.replace(/\/+$/, '')`
unfoldable pub drop_slashes : String → String
drop_slashes String.[] = ""
drop_slashes (String.◌∷◌ c s) = keep_slash c (drop_slashes s)

abbrev pub or_root : String → String
or_root path = if truthy path then path else "/"

unfoldable pub trimmed_path : String → String
trimmed_path path = or_root (drop_slashes path)

-- `text.startsWith(start)`
unfoldable pub starts_with : String → String → Bool
starts_with String.[] text = true
starts_with (String.◌∷◌ c start) String.[] = false
starts_with (String.◌∷◌ c start) (String.◌∷◌ d text) =
    if eqb (code c) (code d) then starts_with start text else false

-- `isActive` at the path of the route.
unfoldable pub is_active : String → String → Bool
is_active route_path to =
    (trimmed_path route_path == trimmed_path to)
    || starts_with (String.◌++◌ (trimmed_path to) "/") (trimmed_path route_path)

pub record NavigationBarItem : Type 0 where
  pub label : String
  pub icon : String
  pub active : Bool
  pub disabled : Bool

abbrev pub bar_item : Bool → String → NavigationItem → NavigationBarItem
bar_item busy route_path item = record {
  label = item.label;
  icon = item.icon;
  active = is_active route_path item.to;
  disabled = busy;
}

unfoldable pub navigation_bar_items : Bool → String → List NavigationBarItem
navigation_bar_items busy route_path = map (bar_item busy route_path) navigation_items

-- The first item with the label.
abbrev pub find_item : String → List NavigationItem → Option NavigationItem
find_item label [] = none
find_item label (item ∷ items) = if item.label == label then some item else find_item label items

abbrev pub target_of : Bool → Option NavigationItem → Option String
target_of busy none = none
target_of busy (some item) = if busy then none else some item.to

-- `onNavigationClick` for the label of the item: where it navigates to, if it does.
unfoldable pub on_navigation_click : Bool → String → Option String
on_navigation_click busy label = target_of busy (find_item label navigation_items)
