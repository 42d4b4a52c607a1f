-- ===== src/ClientsPage/View/Started.antt =====
-- What the handlers of portal/web/app/pages/admin/clients.vue start.
use adscope_identity.Prelude.{none, some}
use adscope_identity.Async.{start_task}
use adscope_identity.AdminApi.{Platform}
use adscope_identity.AdminApi.Session.Entries.{
  IsEntry, starts_copy_secret, starts_refresh_clients, starts_refs, starts_regenerate_secret,
  starts_remove_client, starts_save_client, starts_toggle_client,
}
use adscope_identity.ClientsPage.View.{
  perform, refreshes, creates, closes, saves, regenerates, copies, edits, toggles, removes,
}
use adscope_identity.ClientsPage.{open_editor}
use adscope_identity.ClientsPage.Programs.{close_drawer}
use adscope_identity.AdminApi.State.{Store}
use adscope_identity.ClientsPage.View.{Intent, changes}
use adscope_identity.AdminApi.Reading.{StaysReading, changing-StaysReading, reading-StaysReading}
use adscope_identity.AdminApi.Reading.Operations.{copy_secret-Reads, refresh_clients-Reads}

pub perform-IsEntry :
    (platform : Platform) (i : Intent) → IsEntry platform (start_task (perform platform i))
unfolding perform
perform-IsEntry platform refreshes = starts_refresh_clients
perform-IsEntry platform creates =
    starts_refs (λ r. record r { clients = open_editor none r.clients })
perform-IsEntry platform closes = starts_refs (λ r. record r { clients = close_drawer r.clients })
perform-IsEntry platform saves = starts_save_client
perform-IsEntry platform regenerates = starts_regenerate_secret
perform-IsEntry platform copies = starts_copy_secret
perform-IsEntry platform (edits client) =
    starts_refs (λ r. record r { clients = open_editor (some client) r.clients })
perform-IsEntry platform (toggles client) = starts_toggle_client client
perform-IsEntry platform (removes client) = starts_remove_client client

-- The handler starts a program that sends only requests with the method `GET`, unless `changes` has it.
pub perform-StaysReading :
    (platform : Platform) (i : Intent) (s : Store)
    → StaysReading (changes i) (start_task (perform platform i)) s
unfolding perform
perform-StaysReading platform refreshes s =
    reading-StaysReading _ s (refresh_clients-Reads platform)
perform-StaysReading platform creates s = tt
perform-StaysReading platform closes s = tt
perform-StaysReading platform saves s =
    changing-StaysReading (start_task (perform platform saves)) s
perform-StaysReading platform regenerates s =
    changing-StaysReading (start_task (perform platform regenerates)) s
perform-StaysReading platform copies s = reading-StaysReading _ s copy_secret-Reads
perform-StaysReading platform (edits client) s = tt
perform-StaysReading platform (toggles client) s =
    changing-StaysReading (start_task (perform platform (toggles client))) s
perform-StaysReading platform (removes client) s =
    changing-StaysReading (start_task (perform platform (removes client))) s
