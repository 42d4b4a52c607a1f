-- ===== src/AuthorizePage/Loading/Programs.antt =====
-- The programs of the page, and what holds of its readings.
use adscope_identity.Prelude.{
  ℕ, ◌+◌, eqb, String, Bool, true, false, ◌≡◌, if◌then◌else◌, subst, sym, refl, none,
}
use adscope_identity.Async.{
  then_do, Outcome, ok, err, Proc, get, put, ended, catch_do, modify, start_task, finally, ◌>>=◌,
  call,
}
use adscope_identity.Async.Rules.{Ensures}
use adscope_identity.Async.Triples.{
  Keeps, if-Ensures, bind-Keeps, catch-Keeps, return-Keeps, modify-Keeps, finally-Keeps,
  start_task-Ensures,
}
use adscope_identity.UserApi.State.{success, Store, Response, Refusal, Call, Value, fetch}
use adscope_identity.UserApi.{
  Action, notify, clear, assign, raise_pending, lower_pending, is_ok, logout, logout_request,
  track_request,
}
use adscope_identity.AuthorizePage.{
  Page, authorize_path, OidcAuthorizationContext, authorization_error_message,
}
use adscope_identity.AuthorizePage.Programs.{
  on_page, if_latest, fail_with, show, stop_loading, read_refusal, refuse, accept, use_response,
  load_steps, load_authorization_context, switch_account,
}
use adscope_identity.AuthorizePage.Loading.{weight, unit_if, HasReading, Allows, IsReading}
use adscope_identity.AuthorizePage.Loading.Stretch.{
  IsAnswer, unchanged-IsAnswer, fail_with-IsAnswer, show-IsAnswer, stop-IsReading, begin-IsReading,
}

-- What runs after the answer of a reading.
abbrev tail : ℕ → Outcome (Unit {0}) → Proc Store Call Value
tail h =
    catch_do (λ _. modify (on_page (if_latest h (fail_with "无法连接授权服务，请检查网络后重试。"))))
      (λ o. get (λ s. put (on_page (if_latest h stop_loading) s) (ended o)))

-- What runs after the body of a refusal.
abbrev refusal_then : ℕ → ℕ → Outcome Refusal → Proc Store Call Value
refusal_then h status =
    then_do (λ r k. k (ok r.refusal))
      (catch_do (λ _ k. k (ok none))
        (then_do
          (λ refusal.
            modify (on_page (if_latest h (fail_with (authorization_error_message status refusal)))))
          (tail h)))

module _ (g : ℕ) where
  abbrev Holds : ℕ → Proc Store Call Value → Store → Type 0
  Holds b p s = Ensures (weight g) (HasReading g) Allows b p s

  module _ (h : ℕ) where
    abbrev Own : ℕ → Store → Type 0
    Own d t = HasReading g (d + unit_if (eqb h g)) t

    stopped :
        (d : ℕ) (t : Store) (q : Page)
        → IsAnswer h t.refs.authorize q
        → Own d t
        → IsReading g d (if_latest h stop_loading q)
    stopped d t q a j = stop-IsReading g h d t.refs.authorize q a j

    failed :
        (d : ℕ) (t : Store)
        → Own d t
        → IsReading g d (
            if_latest h stop_loading
              (if_latest h (fail_with "无法连接授权服务，请检查网络后重试。") t.refs.authorize))
    failed d t j = stopped d t _ (fail_with-IsAnswer h "无法连接授权服务，请检查网络后重试。" t.refs.authorize) j

    -- The answer after the wait for the context, for the body of a refusal, and for the navigation.
    shown :
        (o : Outcome OidcAuthorizationContext) (u : Store) (e : ℕ)
        → Own e u
        → Holds e (then_do (λ context. modify (on_page (if_latest h (show context)))) (tail h) o) u
    shown (ok context) u e i = stopped e u _ (show-IsAnswer h context u.refs.authorize) i
    shown (err x) u e i = failed e u i

    accept-Holds : (t : Store) (d : ℕ) → Own d t → Holds d (accept h (tail h)) t
    unfolding accept
    accept-Holds t d j = (tt, j, shown)

    refused_with :
        (message : String) (u : Store) (e : ℕ)
        → Own e u
        → Holds e (modify (on_page (if_latest h (fail_with message))) (tail h)) u
    refused_with message u e i = stopped e u _ (fail_with-IsAnswer h message u.refs.authorize) i

    refused :
        (status : ℕ) (o : Outcome Refusal) (u : Store) (e : ℕ)
        → Own e u
        → Holds e (refusal_then h status o) u
    refused status (ok r) u e i = refused_with (authorization_error_message status r.refusal) u e i
    refused status (err x) u e i = refused_with (authorization_error_message status none) u e i

    refuse-Holds : (status : ℕ) (t : Store) (d : ℕ) → Own d t → Holds d (refuse h status (tail h)) t
    unfolding refuse read_refusal
    refuse-Holds status t d j = (tt, j, refused status)

    left : (o : Outcome (Unit {0})) (u : Store) (e : ℕ) → Own e u → Holds e (tail h o) u
    left (ok x) u e i = stopped e u _ (unchanged-IsAnswer h u.refs.authorize) i
    left (err x) u e i = failed e u i

    use_response-Holds :
        (continue_path : String) (r : Response) (t : Store) (d : ℕ)
        → Own d t
        → Holds d (use_response h continue_path r (tail h)) t
    unfolding use_response
    use_response-Holds continue_path r t d j =
        if-Ensures (weight g) (HasReading g) Allows (eqb h t.refs.authorize.request_generation) _ _
          (tail h) t d
          (λ _.
            if-Ensures (weight g) (HasReading g) Allows (eqb r.status 401) _ _ (tail h) t d
              (λ _. (tt, j, left))
              (λ _.
                if-Ensures (weight g) (HasReading g) Allows (is_ok r.status) _ _ (tail h) t d
                  (λ _. accept-Holds t d j) (λ _. refuse-Holds r.status t d j)))
          (λ _. left (ok tt) t d j)

    answered :
        (continue_path : String) (o : Outcome Response) (u : Store) (e : ℕ)
        → Own e u
        → Holds e (then_do (use_response h continue_path) (tail h) o) u
    answered continue_path (ok r) u e i = use_response-Holds continue_path r u e i
    answered continue_path (err x) u e i = failed e u i

  pub load_authorization_context-Holds :
      (s : Store) (b : ℕ) → HasReading g b s → Holds b (start_task load_authorization_context) s
  unfolding load_authorization_context load_steps
  load_authorization_context-Holds s b j = (
    tt,
    begin-IsReading g b s.refs.authorize j,
    answered (s.refs.authorize.request_generation + 1) _,
  )

  -- The other programs of the page: they make no call of a reading and leave what it shows.
  abbrev KeepsReading : {A : Type 0} → Action A → Type 0
  KeepsReading t = Keeps (weight g) (HasReading g) Allows 0 t

  same :
      (f : Store → Store)
      → ((s : Store) → (f s).refs.authorize ≡ s.refs.authorize)
      → KeepsReading (modify f)
  same f h =
      modify-Keeps (weight g) (HasReading g) Allows 0 f
        (λ n s j. subst (IsReading g n) (sym (h s)) j)

  closed :
      (f : Store → Store)
      → ((s : Store) → (f s).refs.authorize ≡ s.refs.authorize)
      → (n : ℕ) (s : Store) → HasReading g n s
      → HasReading g n (f s)
  closed f h n s j = subst (IsReading g n) (sym (h s)) j

  other_call : (c : Call) → weight g c ≡ 0 → KeepsReading (call c)
  other_call c e = record {
    ensures = λ k h s b j. (
      tt,
      subst (λ n. HasReading g (b + n) s) (sym e) j,
      λ o t d i. h o t d (subst (λ n. HasReading g (d + n) t) e i),
    );
  }

  dropped_same :
      (m : Bool) (s : Store)
      → (if m then notify (success "已退出登录") (clear s) else clear s).refs.authorize
        ≡ s.refs.authorize
  dropped_same true s = refl
  dropped_same false s = refl

  after :
      {A : Type 0} {t : Action A} (f : Store → Store)
      → ((s : Store) → (f s).refs.authorize ≡ s.refs.authorize)
      → KeepsReading t
      → KeepsReading (finally t f)
  after {t} f h k = finally-Keeps (weight g) (HasReading g) Allows 0 t f k (closed f h)

  in_turn :
      {A B : Type 0} {t : Action A} {f : A → Action B}
      → KeepsReading t
      → ((a : A) → KeepsReading (f a))
      → KeepsReading (t >>= f)
  in_turn {t} {f} h k = bind-Keeps (weight g) (HasReading g) Allows 0 t f h k

  tracked : KeepsReading (track_request (call (fetch logout_request)))
  unfolding track_request
  tracked =
      in_turn (same raise_pending (λ s. refl))
        (λ _. after lower_pending (λ s. refl) (other_call (fetch logout_request) refl))

  logout-KeepsReading : (m : Bool) → KeepsReading (logout m)
  unfolding logout
  logout-KeepsReading m =
      after (λ s. if m then notify (success "已退出登录") (clear s) else clear s) (dropped_same m)
        (catch-Keeps (weight g) (HasReading g) Allows 0 _ _
          (in_turn tracked (λ _. return-Keeps (weight g) (HasReading g) Allows 0 tt))
          (λ _. return-Keeps (weight g) (HasReading g) Allows 0 tt))

  switch_account-KeepsReading : KeepsReading switch_account
  unfolding switch_account
  switch_account-KeepsReading =
      in_turn
        (modify-Keeps (weight g) (HasReading g) Allows 0
          (on_page (λ p. record p { switching_account = true }))
          (λ n s j. record { fresh = j.fresh; latest = j.latest }))
        (λ _.
          in_turn (logout-KeepsReading false)
            (λ _. same (λ s. assign (authorize_path s.location.search) s) (λ s. refl)))

  pub switch_account-Holds :
      (s : Store) (b : ℕ) → HasReading g b s → Holds b (start_task switch_account) s
  switch_account-Holds s b j =
      start_task-Ensures (weight g) (HasReading g) Allows switch_account switch_account-KeepsReading
        s b j
