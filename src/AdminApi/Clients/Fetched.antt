-- ===== src/AdminApi/Clients/Fetched.antt =====
-- What `adminFetch` leaves when it runs alone.
use adscope_identity.Prelude.{
  String, string_equality, ◌≡◌, refl, ◌⊎◌, inl, inr, Option, none, some, eqb,
}
use adscope_identity.Async.{error, Outcome, ok, err, call, read, ◌>>=◌, ◌>>◌}
use adscope_identity.Async.Alone.{
  Does, return-Does, throw-Does, bind-Does, modify_then-Does, read_then-Does, call_then-Does,
  weaken-Does, finally-Does, if-Does,
}
use adscope_identity.UserApi.{is_ok}
use adscope_identity.UserApi.State.{Response}
use adscope_identity.AdminApi.State.{Store, Data, Payload, Method, Body, Call, fetch, json, Value}
use adscope_identity.AdminApi.{
  blank_data, clear_session, raise_pending, lower_pending, track_request, check_admin_response,
  read_body, admin_fetch, admin_request, token_ready,
}

-- After a failure the data is as before, or empty, as it is without a session.
abbrev pub IsSpared : Data → Data → Type 0
IsSpared before after = (after ≡ before) ⊎ (after ≡ blank_data)

module _ (answers : (c : Call) → Outcome (Value c)) where
  -- The body of the response, where `none` is that of status 204.
  abbrev pub IsBody : (p : Payload) → Option (Value (json p)) → Type 0
  IsBody p none = Unit
  IsBody p (some v) = answers (json p) ≡ ok v

  -- What `adminFetch` leaves: the data on a success, and at most that on a failure.
  abbrev pub Fetched : (p : Payload) → Data → Outcome (Option (Value (json p))) → Store → Type 0
  Fetched p d (ok b) u = (u.content ≡ d) × IsBody p b
  Fetched p d (err e) u = IsSpared d u.content

  abbrev Checked : Data → Outcome (Unit {0}) → Store → Type 0
  Checked d (ok a) u = u.content ≡ d
  Checked d (err e) u = IsSpared d u.content

  check_admin_response-Does :
      (response : Response) (s : Store)
      → Does answers (check_admin_response response) s (Checked s.content)
  unfolding check_admin_response
  check_admin_response-Does response s =
      if-Does answers (is_ok response.status) (return-Does answers tt refl) (
        if-Does answers (eqb response.status 401)
          (modify_then-Does answers clear_session
            (λ _. throw-Does answers (error "管理会话已失效，请重新输入管理凭证") (inr refl)))
          (throw-Does answers _ (inl refl)))

  read_body-Does :
      (p : Payload) (response : Response) (d : Data) (s : Store)
      → s.content ≡ d
      → Does answers (read_body p response) s (Fetched p d)
  unfolding read_body
  read_body-Does p response d s h =
      if-Does answers (eqb response.status 204) (return-Does answers none (h, tt)) (
        call_then-Does answers (json p) (λ v e. return-Does answers (some v) (h, e)) (λ e _. inl h))

  lowered :
      (p : Payload) (d : Data) (o : Outcome (Option (Value (json p)))) (u : Store)
      → Fetched p d o u
      → Fetched p d o (lower_pending u)
  lowered p d (ok b) u h = h
  lowered p d (err e) u h = h

  -- The tracked part of `adminFetch`.
  tracked :
      (p : Payload) (path : String) (method : Method) (body : Body) (s : Store)
      → Does answers
          (read >>= λ x. call (fetch (admin_request path method body x.csrf_token)) >>= λ response.
            check_admin_response response >> read_body p response)
          (raise_pending s)
          (Fetched p s.content)
  tracked p path method body s = read_then-Does answers (λ x _.
      call_then-Does answers (fetch (admin_request path method body x.csrf_token))
        (λ response _.
          bind-Does answers (check_admin_response-Does response (raise_pending s))
            (λ _ u h. read_body-Does p response s.content u h) (λ _ u h. h))
        (λ _ _. inl refl))

  pub admin_fetch-Does :
      (p : Payload) (path : String) (method : Method) (body : Body) (s : Store)
      → Does answers (admin_fetch p path method body) s (Fetched p s.content)
  unfolding admin_fetch track_request
  admin_fetch-Does p path method body s = read_then-Does answers (λ x e.
      if-Does answers (token_ready x)
        (modify_then-Does answers raise_pending (λ _.
          finally-Does answers lower_pending
            (weaken-Does answers (tracked p path method body s) (lowered p s.content))))
        (throw-Does answers (error "请先输入管理凭证") (inl refl)))
