-- ===== src/AdminShell/Pages/Tests.antt =====
-- The pages of the administrator while each of them saves.
use adscope_identity.Prelude.{true, some, List, ◌≡◌}
use adscope_identity.View.{Element}
use adscope_identity.AdminApi.State.{Store}
use adscope_identity.AdminApi.Samples.{browser, signed_in, idle}
use adscope_identity.ClientsPage.View.{
  changes as client_changes, perform as perform_client, view as clients_view,
}
use adscope_identity.DomainsPage.View.{
  changes as domain_changes, perform as perform_domain, view as domains_view,
}
use adscope_identity.DirectoryPage.{user_editor}
use adscope_identity.DirectoryPage.View.{
  Intent, changes as directory_changes, perform as perform_directory,
}
use adscope_identity.DirectoryPage.View.Shown.{view as directory_view}
use adscope_identity.DirectoryPage.Samples.{no_order, units}
use adscope_identity.AdminShell.Pages.{IsGuarded, pages-IsGuarded}

abbrev saving : Store
saving = record signed_in {
  content = record signed_in.content { organizational_units = units };
  refs = record idle {
    clients = record idle.clients { saving = true; drawer_open = true };
    catalog = record idle.catalog { saving = true; drawer_open = true };
    directory = record idle.directory {
      saving = true;
      selected_ou_id = some "it";
      editor = some user_editor;
    };
  };
}

pages-IsGuarded_example :
    IsGuarded browser perform_client client_changes true (clients_view saving)
    × IsGuarded browser perform_domain domain_changes true (domains_view saving)
    × (elements : List (Element Intent)) × (directory_view no_order "users" saving ≡ some elements)
    × IsGuarded browser perform_directory directory_changes true elements
pages-IsGuarded_example = pages-IsGuarded browser no_order "users" saving
