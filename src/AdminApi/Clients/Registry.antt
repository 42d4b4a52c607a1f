-- ===== src/AdminApi/Clients/Registry.antt =====
-- The clients of the administrator as a map from identifiers, whatever the order of the list.
use adscope_identity.Prelude.{
  String, if◌then◌else◌, ◌==◌, string_equality, ◌≡◌, refl, Option, none, some, List, [], ◌∷◌, ◌++◌,
  map, find?, arith,
}
use adscope_identity.Types.{OAuthClient}
use adscope_identity.AdminApi.Clients.{replace_client, remove_client}

abbrev pub Registry : Type 0
Registry = String → Option OAuthClient

-- The first client of the list with the identifier.
abbrev pub registry : List OAuthClient → Registry
registry clients id = find? (λ client. client.client_id == id) clients

-- A client is registered under an identifier that is not taken.
abbrev pub enter : OAuthClient → Registry → Registry
enter client m id = elim (m id) [
  | some old ↦ some old
  | none ↦ if client.client_id == id then some client else none
]

-- A registered client gets new data.
abbrev pub renew : OAuthClient → Registry → Registry
renew client m id = elim (m id) [
  | none ↦ none
  | some old ↦ if client.client_id == id then some client else some old
]

abbrev pub forget : String → Registry → Registry
forget client_id m id = if client_id == id then none else m id

pub registry-append :
    (client : OAuthClient) (clients : List OAuthClient) (id : String)
    → registry (clients ++ client ∷ []) id ≡ enter client (registry clients) id
registry-append client [] id = refl
registry-append client (x ∷ clients) id = ground (arith, registry-append client clients id)

pub registry-replace_client :
    (client : OAuthClient) (clients : List OAuthClient) (id : String)
    → registry (map (replace_client client) clients) id ≡ renew client (registry clients) id
registry-replace_client client [] id = refl
registry-replace_client client (x ∷ clients) id = ground (
  arith,
  registry-replace_client client clients id,
  string_equality.decides x.client_id client.client_id,
  string_equality.decides x.client_id id,
  string_equality.decides client.client_id id,
)

pub registry-remove_client :
    (client_id : String) (clients : List OAuthClient) (id : String)
    → registry (remove_client client_id clients) id ≡ forget client_id (registry clients) id
registry-remove_client client_id [] id = ground arith
registry-remove_client client_id (x ∷ clients) id = ground (
  arith,
  registry-remove_client client_id clients id,
  string_equality.decides x.client_id client_id,
  string_equality.decides x.client_id id,
  string_equality.decides client_id id,
)
