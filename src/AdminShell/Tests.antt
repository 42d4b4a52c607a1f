-- ===== src/AdminShell/Tests.antt =====
-- The navigation at concrete paths.
use Prim.Native.String
use adscope_identity.Prelude.{true, false, some, ◌≡◌, refl, ◌≤◌, length}
use adscope_identity.Text.{truthy}
use adscope_identity.AdminShell.{on_navigation_click, trimmed_path, drop_slashes, keep_slash}
use adscope_identity.AdminShell.Paths.{trimmed_path_normal}
use adscope_identity.AdminShell.Navigation.{active_items, navigation_bar_items-active}

root_path : trimmed_path "//" ≡ "/"
unfolding trimmed_path drop_slashes keep_slash
root_path = refl

trimmed_path_normal_example :
    (trimmed_path (trimmed_path "/admin/clients//") ≡ trimmed_path "/admin/clients//")
    × (trimmed_path (String.◌++◌ "/admin/clients//" "/") ≡ trimmed_path "/admin/clients//")
    × (truthy (trimmed_path "/admin/clients//") ≡ true)
trimmed_path_normal_example = trimmed_path_normal "/admin/clients//"

navigation_bar_items-active_example : length (active_items false "/admin/domains/7") ≤ 1
navigation_bar_items-active_example = navigation_bar_items-active false "/admin/domains/7"

click_leads : on_navigation_click false "域" ≡ some "/admin/domains"
unfolding on_navigation_click
click_leads = refl
