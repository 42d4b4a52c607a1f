-- ===== src/AdminApi/State.antt =====
-- The store that the operations of the administrator share, and the calls that they make.
use adscope_identity.Prelude.{ℕ, String, Bool, Option, List}
use adscope_identity.UserApi.State.{Notice, Response}
use adscope_identity.Types.{
  Domain, DomainAttributeDefaults, OrganizationalUnit, UserRecord, GroupRecord, SyncDomain,
  OAuthClient, CreateOAuthClientRequest, UpdateOAuthClientRequest, OAuthClientCreateResponse,
  OAuthClientSecretResponse, DomainMutationResponse,
}
use adscope_identity.ClientsPage
use adscope_identity.DirectoryPage
use adscope_identity.DirectoryPage.Requests.{OuPayload, UserPayload, GroupPayload}
use adscope_identity.DomainsPage
use adscope_identity.AdminShell

-- The data that the administrator sees.
pub record Data : Type 0 where
  pub domains : List Domain
  pub organizational_units : List OrganizationalUnit
  pub users : List UserRecord
  pub groups : List GroupRecord
  pub sync_domains : List SyncDomain
  pub oauth_clients : List OAuthClient

-- The flags of the loads that run.
pub record Flags : Type 0 where
  pub ous_loading : Bool
  pub users_loading : Bool
  pub groups_loading : Bool
  pub domains_loading : Bool
  pub sync_loading : Bool
  pub clients_loading : Bool

-- The refs of the pages of the administrator, and of their frame.
pub record Refs : Type 0 where
  pub clients : ClientsPage.Page
  pub directory : DirectoryPage.Page
  pub catalog : DomainsPage.Page
  pub shell : AdminShell.Shell

-- The shared state of `useState`, the refs of the pages, and the notifications so far, the latest
-- first.
pub record Store : Type 0 where
  pub csrf_token : String
  pub authenticated : Bool
  pub pending : ℕ
  pub content : Data
  pub domain_attribute_defaults : DomainAttributeDefaults
  pub flags : Flags
  pub refs : Refs
  pub notices : List Notice

pub data Method : Type 0 where
  get_method post_method patch_method put_method delete_method : Method

pub data Body : Type 0 where
  no_body : Body
  credential : String → Body
  new_client : CreateOAuthClientRequest → Body
  changed_client : UpdateOAuthClientRequest → Body
  new_ou : String → OuPayload → Body
  changed_ou : OuPayload → Body
  new_user : String → UserPayload → Body
  changed_user : UserPayload → Body
  new_group : String → GroupPayload → Body
  changed_group : GroupPayload → Body
  member_list : List String → Body
  changed_domain : DomainsPage.DomainPayload → Body
  new_password : String → Body

-- Every request goes with `credentials: 'same-origin'`.
pub record Request : Type 0 where
  pub method : Method
  pub path : String
  -- The header `x-adscope-csrf-token`.
  pub csrf : Option String
  -- Whether the header `content-type: application/json` is there.
  pub json_content : Bool
  pub body : Body

pub record SessionResponse : Type 0 where
  pub csrf_token : String

pub record DomainsResponse : Type 0 where
  pub domains : List Domain
  pub attribute_defaults : DomainAttributeDefaults

pub record OusResponse : Type 0 where
  pub organizational_units : List OrganizationalUnit

pub record UsersResponse : Type 0 where
  pub users : List UserRecord

pub record GroupsResponse : Type 0 where
  pub groups : List GroupRecord

pub record SyncDomainsResponse : Type 0 where
  pub domains : List SyncDomain

pub record OAuthClientsResponse : Type 0 where
  pub clients : List OAuthClient

pub record NextEmployeeId : Type 0 where
  pub employee_id : String

-- The bodies that `response.json()` is cast to.
pub data Payload : Type 0 where
  domains_payload ous_payload users_payload groups_payload sync_payload clients_payload : Payload
  created_payload updated_payload secret_payload empty_payload : Payload
  saved_domain_payload next_id_payload : Payload

-- The body that tells the CSRF token is read outside of the tracked request. `confirm` asks the
-- administrator, and `write_clipboard` stands for `navigator.clipboard.writeText`.
pub data Call : Type 0 where
  fetch : Request → Call
  json : Payload → Call
  session_json : Call
  confirm : String → Call
  write_clipboard : String → Call

abbrev pub Value : Call → Type 0
Value (fetch r) = Response
Value session_json = SessionResponse
Value (confirm message) = Bool
Value (write_clipboard text) = Unit
Value (json domains_payload) = DomainsResponse
Value (json ous_payload) = OusResponse
Value (json users_payload) = UsersResponse
Value (json groups_payload) = GroupsResponse
Value (json sync_payload) = SyncDomainsResponse
Value (json clients_payload) = OAuthClientsResponse
Value (json created_payload) = OAuthClientCreateResponse
Value (json updated_payload) = OAuthClient
Value (json secret_payload) = OAuthClientSecretResponse
Value (json empty_payload) = Unit
Value (json saved_domain_payload) = DomainMutationResponse
Value (json next_id_payload) = NextEmployeeId
