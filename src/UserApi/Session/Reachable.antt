-- ===== src/UserApi/Session/Reachable.antt =====
-- The user session in every interleaving of its operations, from the start of the page.
use adscope_identity.Prelude.{
  ℕ, ◌+◌, String, ◌≡◌, refl, subst, ◌⊎◌, inl, ap, ltb, Option, none, some, [], All,
}
use adscope_identity.Async.{Proc}
use adscope_identity.Async.Machine.{Machine, Reach, all_held, all_held-sum}
use adscope_identity.Async.Rules.{IsSound, Reach-IsSound, AllParked-held}
use adscope_identity.Async.Sends.{Sends, Ensures-Sends}
use adscope_identity.UserApi.State.{Refs, Store, Call, Value}
use adscope_identity.UserApi.{loading}
use adscope_identity.UserApi.Session.{
  weight, reading_weight, request_weight, request_weight-sum, IsSession, IsPermitted,
}
use adscope_identity.UserApi.Session.Entries.{IsEntry, entries}
use adscope_identity.Oidc.{UrlParser}
use adscope_identity.Oidc.Continue.{IsTarget}
use adscope_identity.LoginPage.{Location}

-- The page has just been opened; the browser may keep a token.
abbrev pub opened : Option String → Refs → Location → Machine Store Call Value
opened stored refs location = record {
  state = record {
    access_token = "";
    profile = none;
    pending = 0;
    stored_token = stored;
    notices = [];
    refs = refs;
    location = record location { assigned = [] };
  };
  threads = [];
}

module _ (new_url : UrlParser) where
  opened-IsSound :
      (stored : Option String) (refs : Refs) (location : Location)
      → IsSound weight IsSession IsPermitted (opened stored refs location)
  opened-IsSound stored refs location = record {
    held = 0;
    holds = record { counted = refl; stored = inl refl; assigned = tt };
    parked = refl;
  }

  Reach-IsSession :
      (stored : Option String) (refs : Refs) (location : Location) (m : Machine Store Call Value)
      → Reach (IsEntry new_url) (opened stored refs location) m
      → IsSession (all_held weight m.threads) m.state
  Reach-IsSession stored refs location m r =
      let i =
        Reach-IsSound weight IsSession IsPermitted (IsEntry new_url) (entries new_url)
          (opened-IsSound stored refs location) r in
      subst (λ n. IsSession n m.state)
        (AllParked-held weight IsSession IsPermitted i.held m.threads i.parked) i.holds

  -- In every interleaving of the operations after the page is opened, `pending` is the number of
  -- requests in flight that useUserApi.ts sends, whichever of them succeeded, failed or were refused, so
  -- that `loading` shows whether one is. The requests of all kinds in flight are `pending` and one for
  -- each reading of an authorization context that waits for its answer or body, which `pending` does
  -- not count.
  pub pending-all_held :
      (stored : Option String) (refs : Refs) (location : Location) (m : Machine Store Call Value)
      → Reach (IsEntry new_url) (opened stored refs location) m
      → (m.state.pending ≡ all_held weight m.threads)
        × (loading m.state ≡ ltb 0 (all_held weight m.threads))
        × (all_held request_weight m.threads ≡ m.state.pending + all_held reading_weight m.threads)
  pending-all_held stored refs location m r =
      let e = (Reach-IsSession stored refs location m r).counted in
      (
        e,
        ap (ltb 0) e,
        rw e (all_held-sum request_weight weight reading_weight request_weight-sum m.threads),
      )

  -- In every interleaving of the operations after the page is opened, there is no session token, or the
  -- browser keeps that token.
  pub access_token-stored :
      (stored : Option String) (refs : Refs) (location : Location) (m : Machine Store Call Value)
      → Reach (IsEntry new_url) (opened stored refs location) m
      → (m.state.access_token ≡ "") ⊎ (m.state.stored_token ≡ some m.state.access_token)
  access_token-stored stored refs location m r = (Reach-IsSession stored refs location m r).stored

  -- In every interleaving of the operations after the page is opened, whatever the query of its address
  -- asks for, the page assigns to its location only the authorization path with something after it.
  pub assigned-IsTarget :
      (stored : Option String) (refs : Refs) (location : Location) (m : Machine Store Call Value)
      → Reach (IsEntry new_url) (opened stored refs location) m
      → All IsTarget m.state.location.assigned
  assigned-IsTarget stored refs location m r = (Reach-IsSession stored refs location m r).assigned

  -- Every call that an operation makes from a store that keeps the invariant of the session is permitted
  -- when it is made, whatever the other operations do to the store while it waits: a request logs in or
  -- out and bears no token, or it asks for the context of an authorization, or it is about the user's
  -- own account and bears the trimmed token of the session at that moment, which is not blank.
  pub Sends-IsPermitted :
      (p : Proc Store Call Value) (n : ℕ) (s : Store) (c : Call) (t : Store)
      → IsEntry new_url p
      → IsSession n s
      → Sends weight IsSession p s c t
      → IsPermitted c t
  Sends-IsPermitted p n s c t e i x =
      Ensures-Sends weight IsSession IsPermitted n (entries new_url p s n e i) x
