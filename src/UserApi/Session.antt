-- ===== src/UserApi/Session.antt =====
-- The invariant of the user session: the requests in flight, the stored token, and the requests that
-- the session may send.
pub mod Operations
pub mod Entries
pub mod Reachable
use Prim.Native.String
use adscope_identity.Prelude.{
  ℕ, ◌+◌, ◌-◌, String, Bool, true, false, ◌≡◌, refl, sym, ap, ◌⊎◌, inl, inr, Option, none, some,
  List, [], ◌∷◌, arith, Bool-cases, ◌==◌, if◌then◌else◌, not, or_else, ◌||◌, subst,
}
use adscope_identity.Prelude.{All}
use adscope_identity.Oidc.Continue.{IsTarget}
use adscope_identity.Text.{trim, truthy}
use adscope_identity.Types.{UserProfile}
use adscope_identity.Async.{
  Failure, error, Outcome, ok, err, Proc, get, put, Task, return, throw, ◌>>=◌, ◌>>◌, catch,
  finally, read, modify, call, start_task,
}
use adscope_identity.Async.Rules.{Ensures, IsSound, Reach-IsSound, AllParked-held}
use adscope_identity.Async.Triples.{
  Keeps, Relies, then_do-Relies, bind-Keeps, catch-Keeps, return-Keeps, throw-Keeps, modify-Keeps,
  finally-Keeps, read-Keeps, call-Keeps, if-Keeps, start_task-Ensures, if-Ensures,
}
use adscope_identity.Async.Machine.{Machine, Reach, all_held}
use adscope_identity.UserApi.State.{
  Refs, Target, Store, Request, Response, Payload, Call, fetch, json, fetch_context, context_json,
  refusal_json, navigate, Value, Method, Body, Notice, success, failure, get_method, post_method,
  patch_method, no_body, contact, passwords, profile_payload, login_payload, contact_payload,
  password_payload,
}
use adscope_identity.UserApi.{
  Action, write_refs, assign, status_message, telephone_of, clear, token_ready, notify,
  raise_pending, lower_pending, load_token, clear_token, track_request, logout, logout_request,
  bearer_request, check_user_response, user_fetch, load_me, login_request, check_login_response,
  login_steps, login, update_contact, change_password, is_ok, is_denied, request_error_message,
}

-- A request of the session, which useUserApi.ts sends, is in flight until its body is read. The
-- requests of authorize.vue for its context are counted apart.
abbrev pub weight : Call → ℕ
weight (fetch r) = 1
weight (json p) = 1
weight (fetch_context g path) = 0
weight (context_json g) = 0
weight (refusal_json g) = 0
weight (navigate g target) = 0

-- The calls of a reading of an authorization context, whose request goes past useUserApi.ts.
abbrev pub reading_weight : Call → ℕ
reading_weight (fetch r) = 0
reading_weight (json p) = 0
reading_weight (fetch_context g path) = 1
reading_weight (context_json g) = 1
reading_weight (refusal_json g) = 1
reading_weight (navigate g target) = 0

-- A request of any kind is in flight until its body is read.
abbrev pub request_weight : Call → ℕ
request_weight (navigate g target) = 0
request_weight _ = 1

pub request_weight-sum : (c : Call) → request_weight c ≡ weight c + reading_weight c
request_weight-sum (fetch r) = refl
request_weight-sum (json p) = refl
request_weight-sum (fetch_context g path) = refl
request_weight-sum (context_json g) = refl
request_weight-sum (refusal_json g) = refl
request_weight-sum (navigate g target) = refl

-- `n` requests of the session are in flight, the token, if there is one, is the stored one, and the location was
-- assigned only targets at the authorization path.
pub record IsSession (n : ℕ) (s : Store) : Type 0 where
  pub counted : s.pending ≡ n
  pub stored : (s.access_token ≡ "") ⊎ (s.stored_token ≡ some s.access_token)
  pub assigned : All IsTarget s.location.assigned

-- The path of the context of an authorization, with a query after it.
abbrev pub IsContextPath : String → Type 0
IsContextPath path = (search : String) × (path ≡ String.◌++◌ "/api/oauth2/authorize/context" search)

-- Logging in and out goes without a token, and so does the request for the context of an
-- authorization, whose call bears no header. Any other request is about the user's own account and
-- bears the session's token, trimmed and not empty.
abbrev pub IsPermitted : Call → Store → Type 0
IsPermitted (json p) s = Unit
IsPermitted (fetch_context g path) s = IsContextPath path
IsPermitted (context_json g) s = Unit
IsPermitted (refusal_json g) s = Unit
IsPermitted (navigate g target) s = Unit
IsPermitted (fetch r) s =
    ((r.authorization ≡ none) × ((r.path ≡ "/api/auth/login") ⊎ (r.path ≡ "/api/auth/logout")))
    ⊎ ((r.authorization ≡ some (String.◌++◌ "Bearer " (trim s.access_token)))
        × (truthy (trim s.access_token) ≡ true)
        × ((r.path ≡ "/api/me") ⊎ ((r.path ≡ "/api/me/contact") ⊎ (r.path ≡ "/api/me/password"))))

abbrev pub KeepsSession : {A : Type 0} → ℕ → Action A → Type 0
KeepsSession n t = Keeps weight IsSession IsPermitted n t

-- Changes of the store that leave the number of requests and the token as they are.
pub clear-IsSession : (n : ℕ) (s : Store) → IsSession n s → IsSession n (clear s)
clear-IsSession n s h = record { counted = h.counted; stored = inl refl; assigned = h.assigned }

pub noted-IsSession : (x : Notice) (n : ℕ) (s : Store) → IsSession n s → IsSession n (notify x s)
noted-IsSession x n s h = record { counted = h.counted; stored = h.stored; assigned = h.assigned }

pub dropped-IsSession :
    (b : Bool) (x : Notice) (n : ℕ) (s : Store)
    → IsSession n s
    → IsSession n (if b then notify x (clear s) else clear s)
dropped-IsSession true x n s h = record {
  counted = h.counted;
  stored = inl refl;
  assigned = h.assigned;
}
dropped-IsSession false x n s h = clear-IsSession n s h

pub profiled-IsSession :
    (p : UserProfile) (n : ℕ) (s : Store)
    → IsSession n s
    → IsSession n (record s { profile = some p })
profiled-IsSession p n s h = record {
  counted = h.counted;
  stored = h.stored;
  assigned = h.assigned;
}

-- A change of the store that keeps the number of requests and the token.
abbrev pub Preserves : (Store → Store) → Type 0
Preserves f = (n : ℕ) (s : Store) → IsSession n s → IsSession n (f s)

pub write_refs-Preserves : (f : Refs → Refs) → Preserves (write_refs f)
write_refs-Preserves f n s h = record {
  counted = h.counted;
  stored = h.stored;
  assigned = h.assigned;
}

pub assign-Preserves : (target : String) → IsTarget target → Preserves (assign target)
assign-Preserves target q n s h = record {
  counted = h.counted;
  stored = h.stored;
  assigned = (q, h.assigned);
}

-- The rules of this invariant.
module _ {A : Type 0} {n : ℕ} where
  pub in_turn :
      {B : Type 0} {t : Action B} {f : B → Action A}
      → KeepsSession n t
      → ((b : B) → KeepsSession n (f b))
      → KeepsSession n (t >>= f)
  in_turn {t} {f} h k = bind-Keeps weight IsSession IsPermitted n t f h k

  pub caught :
      {t : Action A} {f : Failure → Action A}
      → KeepsSession n t
      → ((e : Failure) → KeepsSession n (f e))
      → KeepsSession n (catch t f)
  caught {t} {f} h k = catch-Keeps weight IsSession IsPermitted n t f h k

  pub gives : (a : A) → KeepsSession n (return a)
  gives a = return-Keeps weight IsSession IsPermitted n a

  pub fails : (e : Failure) → KeepsSession {A = A} n (throw e)
  fails e = throw-Keeps weight IsSession IsPermitted n e

  pub either :
      (b : Bool) {t u : Action A}
      → KeepsSession n t
      → KeepsSession n u
      → KeepsSession n (if b then t else u)
  either b {t} {u} h k = if-Keeps weight IsSession IsPermitted n b t u h k

pub changes :
    {n : ℕ} {f : Store → Store}
    → ((m : ℕ) (s : Store) → IsSession m s → IsSession m (f s))
    → KeepsSession n (modify f)
changes {n} {f} h = modify-Keeps weight IsSession IsPermitted n f h

-- What follows a tracked request, once the counter is lowered.
pub lower-Relies :
    {A : Type 0} (k : Outcome A → Proc Store Call Value)
    → Relies weight IsSession IsPermitted 0 k
    → Relies weight IsSession IsPermitted 1 (λ o. get (λ u. put (lower_pending u) (k o)))
lower-Relies k h o u d i =
    h o (lower_pending u) d
      (record { counted = omega arith; stored = i.stored; assigned = i.assigned })

pub raise-IsSession :
    (b : ℕ) (s : Store) → IsSession (b + 0) s → IsSession (b + 1) (raise_pending s)
raise-IsSession b s j = record { counted = omega arith; stored = j.stored; assigned = j.assigned }

pub track_request-Keeps :
    {A : Type 0} (t : Action A) → KeepsSession 1 t → KeepsSession 0 (track_request t)
unfolding track_request
track_request-Keeps t ht = record {
  ensures = λ k h s b j.
      ht.ensures (λ o. get (λ u. put (lower_pending u) (k o))) (lower-Relies k h) (raise_pending s)
        b (raise-IsSession b s j);
}

-- A step of the program that reads the store.
pub reads :
    {A : Type 0} {n : ℕ} {f : Store → Action A}
    → ((s : Store) → KeepsSession n (f s))
    → KeepsSession n (read >>= f)
reads {n} {f} h = read-Keeps weight IsSession IsPermitted n f h

pub afterwards :
    {A : Type 0} {n : ℕ} {t : Action A} {f : Store → Store}
    → KeepsSession n t
    → Preserves f
    → KeepsSession n (finally t f)
afterwards {n} {t} {f} h k = finally-Keeps weight IsSession IsPermitted n t f h k

-- The calls that bear no token of the session.
pub navigate-Keeps : (g : ℕ) (target : Target) → KeepsSession 0 (call (navigate g target))
navigate-Keeps g target = call-Keeps weight IsSession IsPermitted (navigate g target) (λ m s j. tt)

pub fetch_context-Keeps :
    (g : ℕ) (path : String) → IsContextPath path → KeepsSession 0 (call (fetch_context g path))
fetch_context-Keeps g path q =
    call-Keeps weight IsSession IsPermitted (fetch_context g path) (λ m s j. q)

pub context_json-Keeps : (g : ℕ) → KeepsSession 0 (call (context_json g))
context_json-Keeps g = call-Keeps weight IsSession IsPermitted (context_json g) (λ m s j. tt)

pub refusal_json-Keeps : (g : ℕ) → KeepsSession 0 (call (refusal_json g))
refusal_json-Keeps g = call-Keeps weight IsSession IsPermitted (refusal_json g) (λ m s j. tt)
