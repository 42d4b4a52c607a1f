-- ===== src/DomainsPage/View/Started.antt =====
-- What the handlers of portal/web/app/pages/admin/domains.vue start.
use adscope_identity.Prelude.{none, some}
use adscope_identity.Async.{start_task}
use adscope_identity.AdminApi.{Platform}
use adscope_identity.AdminApi.Session.Entries.{
  IsEntry, starts_copy_syncer_key, starts_refresh_domains, starts_refs, starts_save_domain,
}
use adscope_identity.DomainsPage.View.{perform, refreshes, creates, closes, saves, copies, edits}
use adscope_identity.DomainsPage.{open_editor}
use adscope_identity.DomainsPage.View.{close_drawer}
use adscope_identity.AdminApi.State.{Store}
use adscope_identity.DomainsPage.View.{Intent, changes}
use adscope_identity.AdminApi.Reading.{StaysReading, changing-StaysReading, reading-StaysReading}
use adscope_identity.AdminApi.Reading.Operations.{copy_syncer_key-Reads, refresh_domains-Reads}

pub perform-IsEntry :
    (platform : Platform) (i : Intent) → IsEntry platform (start_task (perform platform i))
unfolding perform
perform-IsEntry platform refreshes = starts_refresh_domains
perform-IsEntry platform creates =
    starts_refs (λ r. record r { catalog = open_editor none r.catalog })
perform-IsEntry platform closes = starts_refs (λ r. record r { catalog = close_drawer r.catalog })
perform-IsEntry platform saves = starts_save_domain
perform-IsEntry platform copies = starts_copy_syncer_key
perform-IsEntry platform (edits domain) =
    starts_refs (λ r. record r { catalog = open_editor (some domain) r.catalog })

-- The handler starts a program that sends only requests with the method `GET`, unless `changes` has it.
pub perform-StaysReading :
    (platform : Platform) (i : Intent) (s : Store)
    → StaysReading (changes i) (start_task (perform platform i)) s
unfolding perform
perform-StaysReading platform refreshes s =
    reading-StaysReading _ s (refresh_domains-Reads platform)
perform-StaysReading platform creates s = tt
perform-StaysReading platform closes s = tt
perform-StaysReading platform saves s =
    changing-StaysReading (start_task (perform platform saves)) s
perform-StaysReading platform copies s = reading-StaysReading _ s copy_syncer_key-Reads
perform-StaysReading platform (edits domain) s = tt
