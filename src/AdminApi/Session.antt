-- ===== src/AdminApi/Session.antt =====
-- The invariant of the administrator's session: the requests in flight, the CSRF token, and the
-- requests that the session may send.
pub mod Operations
pub mod Commands
pub mod Entries
pub mod Reachable
use adscope_identity.Prelude.{
  ℕ, ◌+◌, String, Bool, true, false, ◌≡◌, refl, ◌⊎◌, inl, inr, Option, none, some, arith, ◌&&◌,
  if◌then◌else◌,
}
use adscope_identity.Text.{truthy}
use adscope_identity.Async.{
  Failure, error, Outcome, err, Proc, get, put, return, throw, ◌>>=◌, catch, finally, read, modify,
  call, all_of,
}
use adscope_identity.Async.Triples.{
  Keeps, Relies, bind-Keeps, catch-Keeps, return-Keeps, throw-Keeps, finally-Keeps, modify-Keeps,
  call-Keeps, if-Keeps, read-Keeps, all_of-Keeps,
}
use adscope_identity.UserApi.State.{Notice}
use adscope_identity.AdminApi.State.{
  Store, Data, Flags, Refs, Method, get_method, post_method, delete_method, Request, Call, fetch,
  json, session_json, confirm, write_clipboard, Value,
}
use adscope_identity.AdminApi.{
  Action, clear_session, notify, write_content, write_flags, write_refs, raise_pending,
  lower_pending, track_request, token_ready, is_safe,
}

-- A request is in flight until its body is read; only the body with the CSRF token is read after it.
abbrev pub weight : Call → ℕ
weight (fetch r) = 1
weight (json p) = 1
weight session_json = 0
weight (confirm message) = 0
weight (write_clipboard text) = 0

-- `n` requests are in flight, and without a session there is no CSRF token.
pub record IsSession (n : ℕ) (s : Store) : Type 0 where
  pub counted : s.pending ≡ n
  pub guarded : (s.authenticated ≡ true) ⊎ (s.csrf_token ≡ "")

-- A request about the session itself asks for it, begins it with a credential and without a token,
-- or ends it with the token of the store.
abbrev pub IsSessionRequest : Request → Store → Type 0
IsSessionRequest r s =
    (r.path ≡ "/api/admin/session")
    × (((r.method ≡ get_method) × (r.csrf ≡ none))
        ⊎ (((r.method ≡ post_method) × (r.csrf ≡ none))
            ⊎ ((r.method ≡ delete_method) × (r.csrf ≡ some s.csrf_token))))

-- Any other request is sent in a session that has a CSRF token, and bears this token if its method
-- may change something.
abbrev pub IsDataRequest : Request → Store → Type 0
IsDataRequest r s =
    (s.authenticated ≡ true)
    × (truthy s.csrf_token ≡ true)
    × (r.csrf ≡ (if is_safe r.method then none else some s.csrf_token))

abbrev pub IsPermitted : Call → Store → Type 0
IsPermitted (fetch r) s = IsSessionRequest r s ⊎ IsDataRequest r s
IsPermitted (json p) s = Unit
IsPermitted session_json s = Unit
IsPermitted (confirm message) s = Unit
IsPermitted (write_clipboard text) s = Unit

abbrev pub KeepsSession : {A : Type 0} → ℕ → Action A → Type 0
KeepsSession n t = Keeps weight IsSession IsPermitted n t

-- A change of the store that keeps the number of requests and the session.
abbrev pub Preserves : (Store → Store) → Type 0
Preserves f = (n : ℕ) (s : Store) → IsSession n s → IsSession n (f s)

pub clear_session-Preserves : Preserves clear_session
clear_session-Preserves n s h = record { counted = h.counted; guarded = inr refl }

pub notify-Preserves : (x : Notice) → Preserves (notify x)
notify-Preserves x n s h = record { counted = h.counted; guarded = h.guarded }

pub write_content-Preserves : (f : Data → Data) → Preserves (write_content f)
write_content-Preserves f n s h = record { counted = h.counted; guarded = h.guarded }

pub write_flags-Preserves : (f : Flags → Flags) → Preserves (write_flags f)
write_flags-Preserves f n s h = record { counted = h.counted; guarded = h.guarded }

pub write_refs-Preserves : (f : Refs → Refs) → Preserves (write_refs f)
write_refs-Preserves f n s h = record { counted = h.counted; guarded = h.guarded }

pub notify_if-Preserves : (b : Bool) (x : Notice) → Preserves (λ s. if b then notify x s else s)
notify_if-Preserves true x n s h = notify-Preserves x n s h
notify_if-Preserves false x n s h = h

-- The rules of this invariant.
module _ {A : Type 0} {n : ℕ} where
  pub in_turn :
      {B : Type 0} {t : Action B} {f : B → Action A}
      → KeepsSession n t
      → ((b : B) → KeepsSession n (f b))
      → KeepsSession n (t >>= f)
  in_turn {t} {f} h k = bind-Keeps weight IsSession IsPermitted n t f h k

  pub caught :
      {t : Action A} {f : Failure → Action A}
      → KeepsSession n t
      → ((e : Failure) → KeepsSession n (f e))
      → KeepsSession n (catch t f)
  caught {t} {f} h k = catch-Keeps weight IsSession IsPermitted n t f h k

  pub gives : (a : A) → KeepsSession n (return a)
  gives a = return-Keeps weight IsSession IsPermitted n a

  pub fails : (e : Failure) → KeepsSession {A = A} n (throw e)
  fails e = throw-Keeps weight IsSession IsPermitted n e

  pub either :
      (b : Bool) {t u : Action A}
      → KeepsSession n t
      → KeepsSession n u
      → KeepsSession n (if b then t else u)
  either b {t} {u} h k = if-Keeps weight IsSession IsPermitted n b t u h k

  pub afterwards :
      {t : Action A} {f : Store → Store}
      → KeepsSession n t
      → Preserves f
      → KeepsSession n (finally t f)
  afterwards {t} {f} h k = finally-Keeps weight IsSession IsPermitted n t f h k

pub changes : {n : ℕ} {f : Store → Store} → Preserves f → KeepsSession n (modify f)
changes {n} {f} h = modify-Keeps weight IsSession IsPermitted n f h

-- What follows a tracked request, once the counter is lowered.
pub lower-Relies :
    {A : Type 0} (k : Outcome A → Proc Store Call Value)
    → Relies weight IsSession IsPermitted 0 k
    → Relies weight IsSession IsPermitted 1 (λ o. get (λ u. put (lower_pending u) (k o)))
lower-Relies k h o u d i =
    h o (lower_pending u) d (record { counted = omega (arith, i.counted); guarded = i.guarded })

pub raise-IsSession :
    (b : ℕ) (s : Store) → IsSession (b + 0) s → IsSession (b + 1) (raise_pending s)
raise-IsSession b s j = record { counted = omega (arith, j.counted); guarded = j.guarded }

pub track_request-Keeps :
    {A : Type 0} (t : Action A) → KeepsSession 1 t → KeepsSession 0 (track_request t)
unfolding track_request
track_request-Keeps t ht = record {
  ensures = λ k h s b j.
      ht.ensures (λ o. get (λ u. put (lower_pending u) (k o))) (lower-Relies k h) (raise_pending s)
        b (raise-IsSession b s j);
}

-- A step of the program that reads the store.
pub reads :
    {A : Type 0} {n : ℕ} {f : Store → Action A}
    → ((s : Store) → KeepsSession n (f s))
    → KeepsSession n (read >>= f)
reads {n} {f} h = read-Keeps weight IsSession IsPermitted n f h

-- A question to the administrator, and a write to the clipboard.
pub confirm-Keeps : (message : String) → KeepsSession 0 (call (confirm message))
confirm-Keeps message = call-Keeps weight IsSession IsPermitted (confirm message) (λ m s j. tt)

pub write_clipboard-Keeps : (text : String) → KeepsSession 0 (call (write_clipboard text))
write_clipboard-Keeps text =
    call-Keeps weight IsSession IsPermitted (write_clipboard text) (λ m s j. tt)

-- Two programs beside one another.
pub beside :
    {t u : Action (Unit {0})} → KeepsSession 0 t → KeepsSession 0 u → KeepsSession 0 (all_of t u)
beside {t} {u} h k = all_of-Keeps weight IsSession IsPermitted t u h k
