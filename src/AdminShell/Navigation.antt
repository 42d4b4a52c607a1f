-- ===== src/AdminShell/Navigation.antt =====
-- Which items of the navigation bar are active.
use adscope_identity.Prelude.{
  String, Bool, true, false, ◌≡◌, refl, ◌⊎◌, inl, inr, Bool-cases, arith, ◌≤◌, ◌==◌,
  string_equality, List, filter, length,
}
use adscope_identity.AdminShell.{
  NavigationBarItem, navigation_bar_items, is_active, trimmed_path, starts_with, drop_slashes,
  keep_slash,
}
use adscope_identity.AdminShell.Paths.{starts_with_refl, starts_with-either, starts_with-shorter}

-- An active item stands at the front of the path.
is_active-starts_with :
    (route_path to : String)
    → is_active route_path to ≡ true
    → starts_with (trimmed_path to) (trimmed_path route_path) ≡ true
unfolding is_active
is_active-starts_with route_path to h =
    elim (Bool-cases (trimmed_path route_path == trimmed_path to)) [
      | inl e ↦
          let q = (string_equality.decides (trimmed_path route_path) (trimmed_path to)).0 e in
          rw q (starts_with_refl (trimmed_path to))
      | inr e ↦ starts_with-shorter (trimmed_path to) "/" (trimmed_path route_path) (ground arith)
    ]

-- Of two targets neither of which begins with the other, at most one is active.
is_active-apart :
    (route_path x y : String)
    → starts_with (trimmed_path x) (trimmed_path y) ≡ false
    → starts_with (trimmed_path y) (trimmed_path x) ≡ false
    → (is_active route_path x ≡ false) ⊎ (is_active route_path y ≡ false)
is_active-apart route_path x y h k = elim (Bool-cases (is_active route_path x)) [
  | inr e ↦ inl e
  | inl e ↦ elim (Bool-cases (is_active route_path y)) [
    | inr f ↦ inr f
    | inl f ↦
        elim (starts_with-either (trimmed_path x) (trimmed_path y) (trimmed_path route_path)
          (is_active-starts_with route_path x e) (is_active-starts_with route_path y f)) [
            | inl o ↦ absurd (ground arith)
            | inr o ↦ absurd (ground arith)
          ]
  ]
]

abbrev pub active_items : Bool → String → List NavigationBarItem
active_items busy route_path = filter (λ item. item.active) (navigation_bar_items busy route_path)

-- For every path of the route, at most one item of the navigation bar is active.
pub navigation_bar_items-active :
    (busy : Bool) (route_path : String) → length (active_items busy route_path) ≤ 1
unfolding navigation_bar_items trimmed_path starts_with drop_slashes keep_slash
navigation_bar_items-active busy route_path =
    let a = is_active-apart route_path "/admin/directory" "/admin/domains" refl refl in
    let b = is_active-apart route_path "/admin/directory" "/admin/clients" refl refl in
    let c = is_active-apart route_path "/admin/domains" "/admin/clients" refl refl in ground arith
