-- ===== src/AdminShell/Pages.antt =====
-- The pages of the administrator as they are shown, and what their handlers start.
pub mod Tests
use adscope_identity.Prelude.{String, Bool, some, List, ◌≡◌}
use adscope_identity.Async.{start_task}
use adscope_identity.Directory.{Collation}
use adscope_identity.View.{Element}
use adscope_identity.View.Laws.{AllHeld}
use adscope_identity.AdminApi.State.{Store}
use adscope_identity.AdminApi.{Action, Platform}
use adscope_identity.AdminApi.Session.Entries.{IsEntry}
use adscope_identity.AdminApi.Reading.{StaysReading}
use adscope_identity.ClientsPage.View.{
  changes as client_changes, perform as perform_client, view as clients_view,
}
use adscope_identity.ClientsPage.View.Held.{view-Held as clients_view-Held}
use adscope_identity.ClientsPage.View.Started.{
  perform-IsEntry as perform_client-IsEntry, perform-StaysReading as perform_client-StaysReading,
}
use adscope_identity.DomainsPage.View.{
  changes as domain_changes, perform as perform_domain, view as domains_view,
}
use adscope_identity.DomainsPage.View.Held.{view-Held as domains_view-Held}
use adscope_identity.DomainsPage.View.Started.{
  perform-IsEntry as perform_domain-IsEntry, perform-StaysReading as perform_domain-StaysReading,
}
use adscope_identity.DirectoryPage.View.{
  Intent, changes as directory_changes, perform as perform_directory,
}
use adscope_identity.DirectoryPage.View.Shown.{view as directory_view}
use adscope_identity.DirectoryPage.View.Held.{view-Held as directory_view-Held}
use adscope_identity.DirectoryPage.View.Started.{
  perform-IsEntry as perform_directory-IsEntry,
  perform-StaysReading as perform_directory-StaysReading,
}

-- Each handler of a page starts a program of the session, which only reads unless `changes` has the
-- handler; and the page holds back those that `changes` has while `saving` holds.
abbrev pub IsGuarded :
    {I : Type 0}
    → Platform
    → (Platform → I → Action (Unit {0}))
    → (I → Bool)
    → Bool
    → List (Element I)
    → Type 0
IsGuarded {I = I} platform perform changes saving elements =
    AllHeld changes saving elements
    × ((i : I)
        → IsEntry platform (start_task (perform platform i))
          × ((s : Store) → StaysReading (changes i) (start_task (perform platform i)) s))

-- Each handler of the three pages of the administrator starts one of the programs of the session, and
-- a handler that `changes` does not have sends no request but `GET`, from any store, with any answers,
-- and whatever other programs do meanwhile. While a page saves, every button that it shows for a
-- handler of `changes` is disabled, so are all its submit buttons, and no click on a row starts such a
-- handler. The page of the directory is shown for all units, even if their parents form a cycle.
pub pages-IsGuarded :
    (platform : Platform) (c : Collation) (tab : String) (s : Store)
    → IsGuarded platform perform_client client_changes s.refs.clients.saving (clients_view s)
      × IsGuarded platform perform_domain domain_changes s.refs.catalog.saving (domains_view s)
      × (elements : List (Element Intent)) × (directory_view c tab s ≡ some elements)
      × IsGuarded platform perform_directory directory_changes s.refs.directory.saving elements
pages-IsGuarded platform c tab s =
    let (elements, shown, held) = directory_view-Held c tab s in
    (
      (
        clients_view-Held s,
        λ i. (perform_client-IsEntry platform i, perform_client-StaysReading platform i),
      ),
      (
        domains_view-Held s,
        λ i. (perform_domain-IsEntry platform i, perform_domain-StaysReading platform i),
      ),
      elements,
      shown,
      (
        held,
        λ i. (perform_directory-IsEntry platform i, perform_directory-StaysReading platform i),
      ),
    )
