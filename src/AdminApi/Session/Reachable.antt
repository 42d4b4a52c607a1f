-- ===== src/AdminApi/Session/Reachable.antt =====
-- The administrator's session in every interleaving of its operations, from the start of the page.
use adscope_identity.Prelude.{ℕ, true, false, ◌≡◌, refl, subst, ◌⊎◌, inr, []}
use adscope_identity.Async.{Proc}
use adscope_identity.Async.Machine.{Machine, Reach, all_held}
use adscope_identity.Async.Rules.{IsSound, Reach-IsSound, AllParked-held}
use adscope_identity.Async.Sends.{Sends, Ensures-Sends}
use adscope_identity.AdminApi.State.{Refs, Store, Call, Value}
use adscope_identity.AdminApi.{Platform, blank_data}
use adscope_identity.AdminApi.Session.{weight, IsSession, IsPermitted}
use adscope_identity.AdminApi.Session.Entries.{IsEntry, entries}

-- The page has just been opened, without a session.
abbrev pub opened : Refs → Machine Store Call Value
opened refs = record {
  state = record {
    csrf_token = "";
    authenticated = false;
    pending = 0;
    content = blank_data;
    domain_attribute_defaults = record {
      employee_id_attribute = "";
      managed_group_id_attribute = "";
    };
    flags = record {
      ous_loading = false;
      users_loading = false;
      groups_loading = false;
      domains_loading = false;
      sync_loading = false;
      clients_loading = false;
    };
    refs = refs;
    notices = [];
  };
  threads = [];
}

module _ (platform : Platform) where
  opened-IsSound : (refs : Refs) → IsSound weight IsSession IsPermitted (opened refs)
  opened-IsSound refs = record {
    held = 0;
    holds = record { counted = refl; guarded = inr refl };
    parked = refl;
  }

  Reach-IsSession :
      (refs : Refs) (m : Machine Store Call Value)
      → Reach (IsEntry platform) (opened refs) m
      → IsSession (all_held weight m.threads) m.state
  Reach-IsSession refs m r =
      let i =
        Reach-IsSound weight IsSession IsPermitted (IsEntry platform) (entries platform)
          (opened-IsSound refs) r in
      subst (λ n. IsSession n m.state)
        (AllParked-held weight IsSession IsPermitted i.held m.threads i.parked) i.holds

  -- In every interleaving of the operations after the page is opened, also where one of the requests of
  -- a `Promise.all` fails and the others go on without it, `pending` is the number of requests in
  -- flight; and without a session there is no CSRF token.
  pub pending-in_flight :
      (refs : Refs) (m : Machine Store Call Value)
      → Reach (IsEntry platform) (opened refs) m
      → (m.state.pending ≡ all_held weight m.threads)
        × ((m.state.authenticated ≡ true) ⊎ (m.state.csrf_token ≡ ""))
  pending-in_flight refs m r = let i = Reach-IsSession refs m r in (i.counted, i.guarded)

  -- Every call that an operation makes from a store that keeps the invariant of the session is
  -- permitted when it is made, whatever the other operations do to the store while it waits: a request
  -- asks for the session, begins it without a token, or ends it with the CSRF token; any other request
  -- is sent only in a session with a CSRF token, and bears the token of that moment unless its method
  -- is GET.
  pub Sends-csrf :
      (p : Proc Store Call Value) (n : ℕ) (s : Store) (c : Call) (t : Store)
      → IsEntry platform p
      → IsSession n s
      → Sends weight IsSession p s c t
      → IsPermitted c t
  Sends-csrf p n s c t e i x =
      Ensures-Sends weight IsSession IsPermitted n (entries platform p s n e i) x
