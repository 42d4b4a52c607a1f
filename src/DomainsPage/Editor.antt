-- ===== src/DomainsPage/Editor.antt =====
-- The editor of a domain, and the request that saves it.
use adscope_identity.Prelude.{none}
use adscope_identity.Types.{Domain}
use adscope_identity.DomainsPage.{DomainPayload}

-- The data of a domain that a save may change; its identifier is not among them.
abbrev pub settings_of : Domain → DomainPayload
settings_of domain = record {
  id = none;
  name = domain.name;
  enabled = domain.enabled;
  mirror_root_dn = domain.mirror_root_dn;
  quarantine_ou_dn = domain.quarantine_ou_dn;
  upn_suffix = domain.upn_suffix;
  employee_id_attribute = domain.employee_id_attribute;
  managed_group_id_attribute = domain.managed_group_id_attribute;
}
