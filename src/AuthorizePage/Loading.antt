-- ===== src/AuthorizePage/Loading.antt =====
-- The readings of the context in every interleaving: which of them writes, and when `loading` ends.
pub mod Stretch
pub mod Programs
pub mod Reachable
use adscope_identity.Prelude.{ℕ, ◌+◌, ◌<◌, eqb, Bool, true, false, ◌≡◌, ◌⊎◌, if◌then◌else◌, none}
use adscope_identity.UserApi.State.{
  Store, Call, fetch, json, fetch_context, context_json, refusal_json, navigate,
}
use adscope_identity.AuthorizePage.{Page}

abbrev pub unit_if : Bool → ℕ
unit_if b = if b then 1 else 0

-- The calls of the readings of generation `g`.
abbrev pub weight : ℕ → Call → ℕ
weight g (fetch r) = 0
weight g (json p) = 0
weight g (fetch_context h path) = unit_if (eqb h g)
weight g (context_json h) = unit_if (eqb h g)
weight g (refusal_json h) = unit_if (eqb h g)
weight g (navigate h target) = unit_if (eqb h g)

abbrev pub IsBlank : Page → Type 0
IsBlank p = (p.context ≡ none) × (p.error_message ≡ "")

-- The page of the latest reading, of which `n` calls are in flight: it loads and shows nothing, or it
-- is done and does not show both a context and an error.
abbrev pub IsPhase : ℕ → Page → Type 0
IsPhase n p =
    ((p.loading ≡ true) × IsBlank p × (n ≡ 1))
    ⊎ ((p.loading ≡ false) × (n ≡ 0) × ((p.context ≡ none) ⊎ (p.error_message ≡ "")))

-- `n` calls of generation `g` are in flight: none if it is yet to come, and if it is the latest, as
-- many as the page shows.
pub record IsReading (g n : ℕ) (p : Page) : Type 0 where
  pub fresh : p.request_generation < g → n ≡ 0
  pub latest : p.request_generation ≡ g → IsPhase n p

abbrev pub HasReading : ℕ → ℕ → Store → Type 0
HasReading g n s = IsReading g n s.refs.authorize

-- Every call is allowed.
abbrev pub Allows : Call → Store → Type 0
Allows c s = Unit
