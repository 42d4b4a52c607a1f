-- ===== src/MePage/Saving.antt =====
-- The saves of the page: the flag `saving` and the requests that change the account.
pub mod Rules
pub mod Programs
pub mod Reachable
use adscope_identity.Prelude.{ℕ, true, false, ◌≡◌, ◌⊎◌}
use adscope_identity.UserApi.State.{
  Store, Body, no_body, credentials, contact, passwords, Payload, login_payload, profile_payload,
  contact_payload, password_payload, Call, fetch, json, fetch_context, context_json, refusal_json,
  navigate,
}

-- The calls of a request that changes the account.
abbrev pub body_weight : Body → ℕ
body_weight no_body = 0
body_weight (credentials username password) = 0
body_weight (contact email mobile telephone) = 1
body_weight (passwords current next) = 1

abbrev pub payload_weight : Payload → ℕ
payload_weight login_payload = 0
payload_weight profile_payload = 0
payload_weight contact_payload = 1
payload_weight password_payload = 1

abbrev pub weight : Call → ℕ
weight (fetch r) = body_weight r.body
weight (json p) = payload_weight p
weight (fetch_context g path) = 0
weight (context_json g) = 0
weight (refusal_json g) = 0
weight (navigate g target) = 0

-- A save runs, with one request in flight, or none does.
abbrev pub IsSaving : ℕ → Store → Type 0
IsSaving n s = ((s.refs.me.saving ≡ true) × (n ≡ 1)) ⊎ ((s.refs.me.saving ≡ false) × (n ≡ 0))

-- Every call is allowed.
abbrev pub Allows : Call → Store → Type 0
Allows c s = Unit
