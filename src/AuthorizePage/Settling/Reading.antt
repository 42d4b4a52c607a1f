-- ===== src/AuthorizePage/Settling/Reading.antt =====
-- How a reading of the context that nothing interrupts ends.
use adscope_identity.Prelude.{ℕ, ◌+◌, String, ◌≡◌, refl, sym, subst, Option, none, some}
use adscope_identity.Async.{Outcome, ok, err, start_task, ended, modify, ◌>>◌}
use adscope_identity.Async.Alone.{alone, Does, modify_then-Does, read_then-Does}
use adscope_identity.UserApi.State.{Store, Call, Value}
use adscope_identity.AuthorizePage.{authorize_path, context_path}
use adscope_identity.AuthorizePage.Programs.{on_page, begin, load_steps, load_authorization_context}
use adscope_identity.AuthorizePage.Loading.Stretch.{eqb_self}
use adscope_identity.AuthorizePage.Settling.{IsSettled, Settles, load_steps-Does}

module _ (answers : (c : Call) → Outcome (Value c)) where
  -- The program ends without a failure, and the reading of the page is settled.
  abbrev pub HasSettled : ℕ → String → Option (Outcome (Unit {0}) × Store) → Type 0
  HasSettled g path none = ⊥
  HasSettled g path (some (ok a, u)) = IsSettled answers g path u.refs.authorize
  HasSettled g path (some (err e, u)) = ⊥

  ended_with :
      (g : ℕ) (path : String) (o : Outcome (Unit {0})) (u : Store)
      → Settles answers g path o u
      → HasSettled g path (alone answers (ended o) u)
  unfolding alone
  ended_with g path (ok a) u h = h
  ended_with g path (err e) u h = h

  from_here :
      (s x : Store)
      → s ≡ x
      → Does answers
          (modify (on_page begin)
            >> load_steps
                (x.refs.authorize.request_generation + 1)
                (context_path x.location.search)
                (authorize_path x.location.search))
          s
          (Settles answers
            (s.refs.authorize.request_generation + 1)
            (context_path s.location.search))
  from_here s x q =
      subst
        (λ y.
          Does answers
            (modify (on_page begin)
              >> load_steps (y.refs.authorize.request_generation + 1)
                  (context_path y.location.search) (authorize_path y.location.search))
            s
            (Settles answers (s.refs.authorize.request_generation + 1)
              (context_path s.location.search)))
        q
        (modify_then-Does answers (on_page begin) (λ _.
          load_steps-Does answers (s.refs.authorize.request_generation + 1)
            (context_path s.location.search) (authorize_path s.location.search) (on_page begin s)
            (record {
              generation = eqb_self (s.refs.authorize.request_generation + 1);
              no_context = refl;
              no_error = refl;
            })))

  -- Whatever the calls answer, a reading of the context that nothing interrupts ends without a failure,
  -- and then the page does not load any more: it shows the context of the answer and no error, or an
  -- error that is not empty and no context, or neither if the user has to sign in first.
  pub load_authorization_context-HasSettled :
      (s : Store)
      → HasSettled
          (s.refs.authorize.request_generation + 1)
          (context_path s.location.search)
          (alone answers (start_task load_authorization_context) s)
  unfolding load_authorization_context
  load_authorization_context-HasSettled s =
      let g = s.refs.authorize.request_generation + 1 in
      let path = context_path s.location.search in
      let d : Does answers load_authorization_context s (Settles answers g path) =
        read_then-Does answers (λ x q. from_here s x q) in
      subst (HasSettled g path) (sym (d.runs ended)) (ended_with g path d.outcome d.store d.result)
