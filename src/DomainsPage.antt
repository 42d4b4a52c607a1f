-- ===== src/DomainsPage.antt =====
-- portal/web/app/pages/admin/domains.vue: the refs of the page, its editor, and the bodies that it
-- sends. Its handlers stand in Programs.
pub mod Editor
pub mod Programs
pub mod View
pub mod Session
pub mod Tests
use adscope_identity.Prelude.{String, Bool, true, false, if◌then◌else◌, Option, none, some}
use adscope_identity.Text.{truthy}
use adscope_identity.Types.{Domain, DomainForm, DomainMutationResponse}
use adscope_identity.Forms.{blank_domain_form}

pub record Page : Type 0 where
  pub selected_domain_id : Option String
  pub drawer_open : Bool
  pub saving : Bool
  pub syncer_key : Option String
  pub domain_form : DomainForm

abbrev pub is_shown : Option String → Bool
is_shown none = false
is_shown (some t) = truthy t

unfoldable pub drawer_title : Page → String
drawer_title p =
    if is_shown p.syncer_key
    then "Syncer key"
    else if is_shown p.selected_domain_id
    then "编辑域"
    else "新建域"

unfoldable pub domain_form_of : Option Domain → DomainForm
domain_form_of none = blank_domain_form
domain_form_of (some domain) = record {
  id = domain.id;
  name = domain.name;
  enabled = domain.enabled;
  mirror_root_dn = domain.mirror_root_dn;
  quarantine_ou_dn = domain.quarantine_ou_dn;
  upn_suffix = domain.upn_suffix;
  employee_id_attribute = domain.employee_id_attribute;
  managed_group_id_attribute = domain.managed_group_id_attribute;
}

abbrev pub domain_id_of : Option Domain → Option String
domain_id_of none = none
domain_id_of (some domain) = some domain.id

unfoldable pub open_editor : Option Domain → Page → Page
open_editor domain p = record p {
  selected_domain_id = domain_id_of domain;
  syncer_key = none;
  domain_form = domain_form_of domain;
  drawer_open = true;
}

-- The body of `saveDomain`; the identifier is sent only for a new domain.
pub record DomainPayload : Type 0 where
  pub id : Option String
  pub name : String
  pub enabled : Bool
  pub mirror_root_dn : String
  pub quarantine_ou_dn : String
  pub upn_suffix : String
  pub employee_id_attribute : String
  pub managed_group_id_attribute : String

unfoldable pub domain_payload : Page → DomainPayload
domain_payload p =
    let form = p.domain_form in
    record {
      id = if is_shown p.selected_domain_id then none else some form.id;
      name = form.name;
      enabled = form.enabled;
      mirror_root_dn = form.mirror_root_dn;
      quarantine_ou_dn = form.quarantine_ou_dn;
      upn_suffix = form.upn_suffix;
      employee_id_attribute = form.employee_id_attribute;
      managed_group_id_attribute = form.managed_group_id_attribute;
    }

-- What `saveDomain` writes for the answer of the server.
unfoldable pub saved : DomainMutationResponse → Page → Page
saved response p = record p {
  selected_domain_id = some response.domain.id;
  syncer_key = some response.syncer_key;
}
