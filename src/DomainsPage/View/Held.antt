-- ===== src/DomainsPage/View/Held.antt =====
-- What portal/web/app/pages/admin/domains.vue offers while a save runs.
use adscope_identity.Prelude.{String, Bool, true, ◌≡◌, refl, List, All-append, Option, or_else, []}
use adscope_identity.Types.{Domain, DomainForm}
use adscope_identity.View.{Element}
use adscope_identity.View.Laws.{All-if, All-when, All-for_each, AllHeld, AllHeld-of_true}
use adscope_identity.AdminApi.State.{Store}
use adscope_identity.DomainsPage.{Page, is_shown}
use adscope_identity.DomainsPage.View.{
  Intent, changes, busy, domain_row, domain_table, domain_editor, key_shown, drawer, view,
}

abbrev Held : List (Element Intent) → Type 0
Held elements = AllHeld changes true elements

domain_row-Held : (b : Bool) (domain : Domain) → Held (domain_row b domain)
unfolding domain_row
domain_row-Held b domain = (refl, (refl, tt))

domain_table-Held :
    (loading b : Bool) (domains : List Domain) → Held (domain_table loading b domains)
unfolding domain_table
domain_table-Held loading b domains =
    (refl, All-for_each _ domains (domain_row b) (domain_row-Held b))

domain_editor-Held : (id : Option String) (model : DomainForm) → Held (domain_editor id model)
unfolding domain_editor
domain_editor-Held id model =
    (refl, (refl, (refl, (refl, (refl, (refl, (refl, (refl, (refl, tt)))))))))

key_shown-Held : (key : String) → Held (key_shown key)
unfolding key_shown
key_shown-Held key = (refl, (refl, (refl, (refl, tt))))

drawer-Held : (p : Page) → p.saving ≡ true → Held (drawer p)
unfolding drawer
drawer-Held p e = All-when _ p.drawer_open _ (
  refl,
  All-append _ _ _
      (All-if _ (is_shown p.syncer_key) _ _ (key_shown-Held (or_else p.syncer_key ""))
        (domain_editor-Held p.selected_domain_id p.domain_form))
      (refl, All-if _ (is_shown p.syncer_key) [] _ tt (e, tt)),
)

-- While a save runs, every button of the page that would send a change to the server is disabled, and
-- so is every submit button.
pub view-Held : (s : Store) → AllHeld changes s.refs.catalog.saving (view s)
unfolding view
view-Held s = AllHeld-of_true changes s.refs.catalog.saving (view s) (λ e.
    let b = busy s.pending s.refs.catalog in
    (
      refl,
      (
        refl,
        All-append _ (domain_table s.flags.domains_loading b s.content.domains) _
            (domain_table-Held s.flags.domains_loading b s.content.domains)
            (drawer-Held s.refs.catalog e),
      ),
    ))
