-- ===== src/Types.antt =====
-- The types that the portal shares with Core's interface, after portal/web/app/types/admin.ts,
-- user.ts and oidc.ts. A revision is a natural number, and `T | null` is `Option T`.
use adscope_identity.Prelude.{ℕ, String, Bool, List, Option}

pub data UserStatus : Type 0 where
  active disabled : UserStatus

pub data OAuthClientType : Type 0 where
  web desktop : OAuthClientType

pub data OAuthScope : Type 0 where
  openid profile email phone : OAuthScope

pub record OAuthClient : Type 0 where
  pub client_id : String
  pub name : String
  pub client_type : OAuthClientType
  pub redirect_uris : List String
  pub allowed_scopes : List OAuthScope
  pub enabled : Bool

pub record CreateOAuthClientRequest : Type 0 where
  pub name : String
  pub client_type : OAuthClientType
  pub redirect_uris : List String
  pub allowed_scopes : List OAuthScope
  pub enabled : Bool

pub record UpdateOAuthClientRequest : Type 0 where
  pub name : String
  pub redirect_uris : List String
  pub allowed_scopes : List OAuthScope
  pub enabled : Bool

pub record OAuthClientCreateResponse : Type 0 where
  pub client : OAuthClient
  pub client_secret : Option String

pub record OAuthClientSecretResponse : Type 0 where
  pub client_id : String
  pub client_secret : String

pub record Domain : Type 0 where
  pub id : String
  pub name : String
  pub enabled : Bool
  pub mirror_root_dn : String
  pub quarantine_ou_dn : String
  pub upn_suffix : String
  pub employee_id_attribute : String
  pub managed_group_id_attribute : String
  pub applied_directory_revision : ℕ
  pub applied_credential_revision : ℕ

pub record DomainMutationResponse : Type 0 where
  pub domain : Domain
  pub syncer_key : String

pub record DomainAttributeDefaults : Type 0 where
  pub employee_id_attribute : String
  pub managed_group_id_attribute : String

pub record OrganizationalUnit : Type 0 where
  pub id : String
  pub name : String
  pub parent_id : Option String
  pub changed_revision : ℕ

pub record UserRecord : Type 0 where
  pub employee_id : String
  pub username : String
  pub display_name : String
  pub surname : String
  pub given_name : String
  pub email : Option String
  pub mobile : Option String
  pub telephone : Option String
  pub organizational_unit_id : String
  pub status : UserStatus

pub record GroupRecord : Type 0 where
  pub id : String
  pub name : String
  pub organizational_unit_id : String
  pub member_employee_ids : List String
  pub changed_revision : ℕ

pub record SyncDomain : Type 0 where
  pub domain_id : String
  pub enabled : Bool
  pub applied_directory_revision : ℕ
  pub applied_credential_revision : ℕ
  pub directory_lag : ℕ
  pub credential_lag : ℕ

pub record DomainForm : Type 0 where
  pub id : String
  pub name : String
  pub enabled : Bool
  pub mirror_root_dn : String
  pub quarantine_ou_dn : String
  pub upn_suffix : String
  pub employee_id_attribute : String
  pub managed_group_id_attribute : String

pub record OuForm : Type 0 where
  pub id : String
  pub name : String
  pub parent_id : String

pub record UserForm : Type 0 where
  pub employee_id : String
  pub username : String
  pub display_name : String
  pub surname : String
  pub given_name : String
  pub email : String
  pub mobile : String
  pub organizational_unit_id : String
  pub status : UserStatus
  pub initial_password : String

pub record GroupForm : Type 0 where
  pub id : String
  pub name : String
  pub organizational_unit_id : String
  pub member_employee_ids : String

pub record OuTreeItem : Type 0 where
  pub ou : OrganizationalUnit
  pub depth : ℕ

-- `UserProfile` has the fields of `UserRecord`.
abbrev pub UserProfile : Type 0
UserProfile = UserRecord

pub record UserLoginResponse : Type 0 where
  pub employee_id : String
  pub access_token : String

pub record UserContactUpdateResponse : Type 0 where
  pub profile : UserProfile
  pub directory_revision : ℕ

pub record PasswordChangeResponse : Type 0 where
  pub employee_id : String
  pub credential_revision : ℕ

pub record OidcAuthorization : Type 0 where
  pub response_type : String
  pub client_id : String
  pub redirect_uri : String
  pub scope : String
  pub state : String
  pub nonce : String
  pub code_challenge : String
  pub code_challenge_method : String
  pub response_mode : Option String
  pub prompt : Option String

pub record OidcAuthorizationUser : Type 0 where
  pub employee_id : String
  pub username : String
  pub display_name : String

pub record OidcFormField : Type 0 where
  pub name : String
  pub value : String
