-- ===== src/AdminApi/Reading.antt =====
-- Operations of the administrator that only read: those whose requests all have the method `GET`.
pub mod Operations
use adscope_identity.Prelude.{ℕ, String, Bool, true, false, ◌||◌, ◌≡◌, refl, if◌then◌else◌}
use adscope_identity.Async.{
  Failure, Outcome, Proc, finish, get, put, await, gather, return, throw, ◌>>=◌, catch, finally,
  read, modify, call, all_of, start_task,
}
use adscope_identity.Async.Rules.{Ensures}
use adscope_identity.Async.Triples.{
  Keeps, bind-Keeps, catch-Keeps, return-Keeps, throw-Keeps, finally-Keeps, modify-Keeps,
  call-Keeps, if-Keeps, read-Keeps, all_of-Keeps, start_task-Ensures,
}
use adscope_identity.AdminApi.State.{
  Store, Request, Call, fetch, json, session_json, confirm, write_clipboard, Value,
}
use adscope_identity.AdminApi.{Action, is_safe}

abbrev pub is_reading : Call → Bool
is_reading (fetch r) = is_safe r.method
is_reading _ = true

abbrev pub weightless : Call → ℕ
weightless c = 0

abbrev pub Always : ℕ → Store → Type 0
Always n s = Unit

-- A call that only reads, or any call if `may_change`.
abbrev pub IsAllowed : Bool → Call → Store → Type 0
IsAllowed may_change c s = (may_change || is_reading c) ≡ true

-- The program only reads, unless `may_change`, from the store `s` and with any answers, whatever the
-- other programs do to the store.
abbrev pub StaysReading : Bool → Proc Store Call Value → Store → Type 0
StaysReading may_change p s = Ensures weightless Always (IsAllowed may_change) 0 p s

-- Any program may change.
any_Ensures :
    (d : ℕ) (p : Proc Store Call Value) (s : Store)
    → Ensures weightless Always (IsAllowed true) d p s
any_Ensures d (finish o) s = tt
any_Ensures d (get f) s = any_Ensures d (f s) s
any_Ensures d (put s' p) s = any_Ensures d p s'
any_Ensures d (await c k) s = (refl, tt, λ o t d' j. any_Ensures d' (k o) t)
any_Ensures d (gather p q k) s =
    (any_Ensures d p s, λ t d' j. any_Ensures d' q t, λ o t d' j. any_Ensures d' (k o) t)

pub changing-StaysReading : (p : Proc Store Call Value) (s : Store) → StaysReading true p s
changing-StaysReading p s = any_Ensures 0 p s

abbrev pub Reads : {A : Type 0} → Action A → Type 0
Reads t = Keeps weightless Always (IsAllowed false) 0 t

pub reading-StaysReading :
    {A : Type 0} (t : Action A) (s : Store) → Reads t → StaysReading false (start_task t) s
reading-StaysReading t s h = start_task-Ensures weightless Always (IsAllowed false) t h s 0 tt

module _ {A : Type 0} where
  pub in_turn :
      {B : Type 0} {t : Action B} {f : B → Action A}
      → Reads t
      → ((b : B) → Reads (f b))
      → Reads (t >>= f)
  in_turn {t} {f} h k = bind-Keeps weightless Always (IsAllowed false) 0 t f h k

  pub caught :
      {t : Action A} {f : Failure → Action A}
      → Reads t
      → ((e : Failure) → Reads (f e))
      → Reads (catch t f)
  caught {t} {f} h k = catch-Keeps weightless Always (IsAllowed false) 0 t f h k

  pub gives : (a : A) → Reads (return a)
  gives a = return-Keeps weightless Always (IsAllowed false) 0 a

  pub fails : (e : Failure) → Reads {A = A} (throw e)
  fails e = throw-Keeps weightless Always (IsAllowed false) 0 e

  pub either : (b : Bool) {t u : Action A} → Reads t → Reads u → Reads (if b then t else u)
  either b {t} {u} h k = if-Keeps weightless Always (IsAllowed false) 0 b t u h k

  pub looks : {f : Store → Action A} → ((s : Store) → Reads (f s)) → Reads (read >>= f)
  looks {f} h = read-Keeps weightless Always (IsAllowed false) 0 f h

  pub afterwards : {t : Action A} (f : Store → Store) → Reads t → Reads (finally t f)
  afterwards {t} f h = finally-Keeps weightless Always (IsAllowed false) 0 t f h (λ m s j. tt)

pub writes : (f : Store → Store) → Reads (modify f)
writes f = modify-Keeps weightless Always (IsAllowed false) 0 f (λ m s j. tt)

pub calls : (c : Call) → is_reading c ≡ true → Reads (call c)
calls c e = call-Keeps weightless Always (IsAllowed false) c (λ m s j. e)

pub beside : {t u : Action (Unit {0})} → Reads t → Reads u → Reads (all_of t u)
beside {t} {u} h k = all_of-Keeps weightless Always (IsAllowed false) t u h k
