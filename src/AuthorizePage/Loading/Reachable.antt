-- ===== src/AuthorizePage/Loading/Reachable.antt =====
-- The page in every interleaving of its readings and of a change of the account.
use adscope_identity.Prelude.{ℕ, ◌<◌, ◌≡◌, refl, subst, [], arith}
use adscope_identity.Async.{Proc, start_task}
use adscope_identity.Async.Machine.{Machine, Reach, all_held}
use adscope_identity.Async.Rules.{Ensures, IsSound, Reach-IsSound, AllParked-held}
use adscope_identity.UserApi.State.{Store, Call, Value}
use adscope_identity.AuthorizePage.Programs.{load_authorization_context, switch_account}
use adscope_identity.AuthorizePage.Loading.{weight, HasReading, IsPhase, Allows}
use adscope_identity.AuthorizePage.Loading.Programs.{
  load_authorization_context-Holds, switch_account-Holds,
}

-- What the page starts: a reading when it is opened, when its address changes and on request, and a
-- change of the account.
pub data IsEntry : Proc Store Call Value → Type 0 where
  starts_reading : IsEntry (start_task load_authorization_context)
  starts_switch_account : IsEntry (start_task switch_account)

entries :
    (g : ℕ) (p : Proc Store Call Value) (s : Store) (b : ℕ)
    → IsEntry p
    → HasReading g b s
    → Ensures (weight g) (HasReading g) Allows b p s
entries g _ s b starts_reading j = load_authorization_context-Holds g s b j
entries g _ s b starts_switch_account j = switch_account-Holds g s b j

-- The page as it stands before its first reading.
pub record IsUnread (s : Store) : Type 0 where
  pub unread : s.refs.authorize.request_generation ≡ 0

abbrev pub waiting : Store → Machine Store Call Value
waiting s = record { state = s; threads = [] }

waiting-IsSound :
    (g : ℕ) (s : Store) → 0 < g → IsUnread s → IsSound (weight g) (HasReading g) Allows (waiting s)
waiting-IsSound g s l u = record {
  held = 0;
  holds = record { fresh = λ k. refl; latest = λ e. absurd (omega (arith, u.unread, e)) };
  parked = refl;
}

-- In every interleaving of readings of the context and changes of the account that starts before the
-- first reading, with any answers in any order: once a reading has begun, the page loads and shows
-- neither a context nor an error as long as exactly one call of the latest reading is in flight; and
-- else it does not load, no call of the latest reading is in flight, and it does not show both a
-- context and an error.
pub Reach-IsPhase :
    (s : Store) (m : Machine Store Call Value)
    → IsUnread s
    → 0 < m.state.refs.authorize.request_generation
    → Reach IsEntry (waiting s) m
    → IsPhase
        (all_held (weight m.state.refs.authorize.request_generation) m.threads)
        m.state.refs.authorize
Reach-IsPhase s m u l r =
    let g = m.state.refs.authorize.request_generation in
    let i =
      Reach-IsSound (weight g) (HasReading g) Allows IsEntry (entries g) (waiting-IsSound g s l u)
        r in
    subst (λ n. IsPhase n m.state.refs.authorize)
      (AllParked-held (weight g) (HasReading g) Allows i.held m.threads i.parked)
      (i.holds.latest refl)
