-- ===== src/DomainsPage/Tests.antt =====
-- The page of the domains with a concrete domain.
use adscope_identity.Prelude.{true}
use adscope_identity.Types.{Domain}

abbrev office : Domain
office = record {
  id = "office";
  name = "Office";
  enabled = true;
  mirror_root_dn = "OU=Mirror";
  quarantine_ou_dn = "OU=Quarantine";
  upn_suffix = "example.com";
  employee_id_attribute = "employeeID";
  managed_group_id_attribute = "info";
  applied_directory_revision = 1;
  applied_credential_revision = 2;
}
