-- ===== src/AuthorizePage/Settling.antt =====
-- The steps of a reading of the context that nothing interrupts.
pub mod Reading
use Prim.Native.String
use adscope_identity.Prelude.{
  ℕ, ◌+◌, String, true, false, eqb, if◌then◌else◌, ◌≡◌, refl, sym, ap, subst, ◌∙◌, ◌⊎◌, inl, inr,
  Option, none, some, Bool-cases, arith,
}
use adscope_identity.Text.{truthy}
use adscope_identity.Async.{Outcome, ok, err, start_task, ended, modify, ◌>>◌}
use adscope_identity.Async.Alone.{
  alone, Does, return-Does, modify-Does, modify_then-Does, read_then-Does, call_then-Does,
  call-Does, bind-Does, catch-Does, finally-Does, weaken-Does, if-Does, test-Does,
}
use text.Mathlib.TextLemmas.{cons-append}
use adscope_identity.UserApi.State.{
  Store, Call, Value, Response, fetch_context, context_json, refusal_json, navigate,
}
use adscope_identity.UserApi.{is_ok}
use adscope_identity.AuthorizePage.{
  OidcAuthorizationContext, Page, authorize_path, context_path, is_error,
  authorization_error_message,
}
use adscope_identity.AuthorizePage.Programs.{
  on_page, begin, if_latest, fail_with, show, stop_loading, login_target, read_refusal, refuse,
  accept, use_response, load_steps, load_authorization_context,
}
use adscope_identity.AuthorizePage.Loading.Stretch.{eqb_self}

authorization_error_message-truthy :
    (status : ℕ) (refusal : Option String)
    → truthy (authorization_error_message status refusal) ≡ true
unfolding authorization_error_message
authorization_error_message-truthy status refusal =
    elim (Bool-cases (is_error refusal "invalid_request")) [
      | inl e ↦ rw e refl
      | inr e ↦ elim (Bool-cases (is_error refusal "server_error")) [
        | inl f ↦ rw (e, f) refl
        | inr f ↦ rw (e, f, cons-append) refl
      ]
    ]

eq_of_eqb : (a b : ℕ) → eqb a b ≡ true → a ≡ b
eq_of_eqb a b h = ground arith

module _ (answers : (c : Call) → Outcome (Value c)) (g : ℕ) (path : String) where
  -- What the page of the reading `g` shows: the context of the answer, a message, or nothing where the
  -- user has to sign in first.
  pub data IsResult (p : Page) : Type 0 where
    shows :
        (c : OidcAuthorizationContext)
        → answers (context_json g) ≡ ok c
        → p.context ≡ some c
        → p.error_message ≡ ""
        → IsResult p
    complains : p.context ≡ none → truthy p.error_message ≡ true → IsResult p
    leaves :
        (r : Response)
        → answers (fetch_context g path) ≡ ok r
        → r.status ≡ 401
        → p.context ≡ none
        → p.error_message ≡ ""
        → IsResult p

  -- The page of the reading has begun.
  pub record IsBegun (p : Page) : Type 0 where
    pub generation : eqb g p.request_generation ≡ true
    pub no_context : p.context ≡ none
    pub no_error : p.error_message ≡ ""

  -- A result of the latest reading.
  pub record IsReached (p : Page) : Type 0 where
    pub latest : eqb g p.request_generation ≡ true
    pub result : IsResult p

  abbrev After : Outcome (Unit {0}) → Store → Type 0
  After (ok a) u = IsReached u.refs.authorize
  After (err e) u = IsBegun u.refs.authorize

  failing :
      (message : String) (p : Page)
      → truthy message ≡ true
      → IsBegun p
      → IsReached (if_latest g (fail_with message) p)
  failing message p h b =
      rw b.generation record { latest = b.generation; result = complains b.no_context h }

  showing :
      (c : OidcAuthorizationContext) (p : Page)
      → answers (context_json g) ≡ ok c
      → IsBegun p
      → IsReached (if_latest g (show c) p)
  showing c p e b =
      rw b.generation record { latest = b.generation; result = shows c e refl b.no_error }

  accept-Does : (s : Store) → IsBegun s.refs.authorize → Does answers (accept g) s After
  unfolding accept
  accept-Does s b =
      call_then-Does answers (context_json g)
        (λ c e.
          modify-Does answers (on_page (if_latest g (show c))) (showing c s.refs.authorize e b))
        (λ _ _. b)

  -- Reading the body of a refusal always succeeds.
  abbrev Reads : Store → Outcome (Option String) → Store → Type 0
  Reads s (ok o) u = u ≡ s
  Reads s (err e) u = ⊥

  abbrev Same : Store → Outcome (Option String) → Store → Type 0
  Same s o u = u ≡ s

  read_refusal-Does : (s : Store) → Does answers (read_refusal g) s (Reads s)
  unfolding read_refusal
  read_refusal-Does s =
      catch-Does answers {P = Same s}
        (call_then-Does answers (refusal_json g) (λ r _. return-Does answers r.refusal refl)
          (λ _ _. refl))
        (λ _ u h. h) (λ _ u h. return-Does answers none h)

  refuse-Does :
      (status : ℕ) (s : Store) → IsBegun s.refs.authorize → Does answers (refuse g status) s After
  unfolding refuse
  refuse-Does status s b =
      bind-Does answers (read_refusal-Does s)
        (λ o u h.
          modify-Does answers
            (on_page (if_latest g (fail_with (authorization_error_message status o))))
            (failing (authorization_error_message status o) u.refs.authorize
              (authorization_error_message-truthy status o)
              (subst (λ x. IsBegun x.refs.authorize) (sym h) b)))
        (λ _ u h. absurd h)

  leaving :
      (r : Response) (s : Store) (o : Outcome (Unit {0}))
      → answers (fetch_context g path) ≡ ok r
      → r.status ≡ 401
      → IsBegun s.refs.authorize
      → After o s
  leaving r s (ok a) e f b = record {
    latest = b.generation;
    result = leaves r e f b.no_context b.no_error;
  }
  leaving r s (err x) e f b = b

  use_response-Does :
      (continue_path : String) (r : Response) (s : Store)
      → answers (fetch_context g path) ≡ ok r
      → IsBegun s.refs.authorize
      → Does answers (use_response g continue_path r) s After
  unfolding use_response
  use_response-Does continue_path r s e b = read_then-Does answers (λ x q.
      test-Does answers (eqb g x.refs.authorize.request_generation)
        (λ _.
          test-Does answers (eqb r.status 401)
            (λ f. call-Does answers (navigate g (login_target continue_path)) (
              leaving r s (answers (navigate g (login_target continue_path))) e
                (eq_of_eqb r.status 401 f) b))
            (λ _. if-Does answers (is_ok r.status) (accept-Does s b) (refuse-Does r.status s b)))
        (λ n.
          let m = subst (λ y. eqb g y.refs.authorize.request_generation ≡ true) q b.generation in
          absurd (cc (m, n))))

  -- The reading has ended.
  pub record IsSettled (p : Page) : Type 0 where
    pub stopped : p.loading ≡ false
    pub result : IsResult p

  abbrev pub Settles : Outcome (Unit {0}) → Store → Type 0
  Settles (ok a) u = IsSettled u.refs.authorize
  Settles (err e) u = ⊥

  abbrev Reaches : Outcome (Unit {0}) → Store → Type 0
  Reaches (ok a) u = IsReached u.refs.authorize
  Reaches (err e) u = ⊥

  kept-IsResult : (p : Page) → IsResult p → IsResult (stop_loading p)
  kept-IsResult p (shows c e h k) = shows c e h k
  kept-IsResult p (complains h k) = complains h k
  kept-IsResult p (leaves r e f h k) = leaves r e f h k

  stopping : (p : Page) → IsReached p → IsSettled (if_latest g stop_loading p)
  stopping p h = rw h.latest record { stopped = refl; result = kept-IsResult p h.result }

  stopped_after :
      (o : Outcome (Unit {0})) (u : Store)
      → Reaches o u
      → Settles o (on_page (if_latest g stop_loading) u)
  stopped_after (ok a) u h = stopping u.refs.authorize h
  stopped_after (err e) u h = h

  pub load_steps-Does :
      (continue_path : String) (s : Store)
      → IsBegun s.refs.authorize
      → Does answers (load_steps g path continue_path) s Settles
  unfolding load_steps
  load_steps-Does continue_path s b = finally-Does answers (on_page (if_latest g stop_loading)) (
      weaken-Does answers
        (catch-Does answers {P = After} {R = Reaches}
          (call_then-Does answers (fetch_context g path)
            (λ r e. use_response-Does continue_path r s e b) (λ _ _. b))
          (λ a u h. h)
          (λ e u h.
            modify-Does answers (on_page (if_latest g (fail_with "无法连接授权服务，请检查网络后重试。")))
              (failing "无法连接授权服务，请检查网络后重试。" u.refs.authorize refl h)))
        stopped_after)
