-- ===== src/Async.antt =====
-- Asynchronous programs, as the portal writes them with `async`, `await`, `try` and `Promise.all`.
-- A program runs without interruption up to its next `await`, and there other programs may run.
pub mod Machine
pub mod Rules
pub mod Triples
pub mod Sends
pub mod Alone
use adscope_identity.Prelude.{String, List, [], ◌∷◌, ◌++◌}

-- A thrown value: an instance of `Error` with its message, or any other value.
pub data Failure : Type 0 where
  error : String → Failure
  thrown : Failure

-- How a promise settles.
pub data Outcome (A : Type 0) : Type 0 where
  ok : A → Outcome A
  err : Failure → Outcome A

-- The rest of a program over the store `S`, whose promises are the calls `C` with values `V`.
-- `gather` runs two programs beside one another, as `Promise.all` does.
pub data Proc (S C : Type 0) (V : C → Type 0) : Type 0 where
  finish : Outcome (Unit {0}) → Proc S C V
  get : (S → Proc S C V) → Proc S C V
  put : S → Proc S C V → Proc S C V
  await : (c : C) → (Outcome (V c) → Proc S C V) → Proc S C V
  gather : Proc S C V → Proc S C V → (Outcome (Unit {0}) → Proc S C V) → Proc S C V

-- An asynchronous computation of a value of type `A`, given what runs after it.
abbrev pub Task : (S C : Type 0) → (C → Type 0) → Type 0 → Type 0
Task S C V A = (Outcome A → Proc S C V) → Proc S C V

module _ {S C : Type 0} {V : C → Type 0} where
  abbrev pub settle : {A : Type 0} → Outcome A → Task S C V A
  settle o k = k o

  abbrev pub return : {A : Type 0} → A → Task S C V A
  return a k = k (ok a)

  abbrev pub throw : {A : Type 0} → Failure → Task S C V A
  throw e k = k (err e)

  abbrev pub then_do :
      {A B : Type 0} → (A → Task S C V B) → (Outcome B → Proc S C V) → Outcome A → Proc S C V
  then_do f k (ok a) = f a k
  then_do f k (err e) = k (err e)

  infixl 5 ◌>>=◌ ◌>>◌
  abbrev pub ◌>>=◌ : {A B : Type 0} → Task S C V A → (A → Task S C V B) → Task S C V B
  ◌>>=◌ t f k = t (then_do f k)

  abbrev pub ◌>>◌ : {B : Type 0} → Task S C V (Unit {0}) → Task S C V B → Task S C V B
  t >> u = t >>= λ _. u

  abbrev pub catch_do :
      {A : Type 0} → (Failure → Task S C V A) → (Outcome A → Proc S C V) → Outcome A → Proc S C V
  catch_do h k (ok a) = k (ok a)
  catch_do h k (err e) = h e k

  -- `try { t } catch (e) { h(e) }`
  abbrev pub catch : {A : Type 0} → Task S C V A → (Failure → Task S C V A) → Task S C V A
  catch t h k = t (catch_do h k)

  -- `try { t } finally { … }` where the block is a change of the store.
  abbrev pub finally : {A : Type 0} → Task S C V A → (S → S) → Task S C V A
  finally t f k = t (λ o. get (λ s. put (f s) (k o)))

  abbrev pub read : Task S C V S
  read k = get (λ s. k (ok s))

  abbrev pub modify : (S → S) → Task S C V (Unit {0})
  modify f k = get (λ s. put (f s) (k (ok tt)))

  -- `await` of a promise that the program does not make itself.
  abbrev pub call : (c : C) → Task S C V (V c)
  call c k = await c k

  -- `await Promise.all([t, u])`; longer arrays nest.
  abbrev pub all_of : Task S C V (Unit {0}) → Task S C V (Unit {0}) → Task S C V (Unit {0})
  all_of t u k = gather (t finish) (u finish) k

  abbrev pub ended : {A : Type 0} → Outcome A → Proc S C V
  ended (ok a) = finish (ok tt)
  ended (err e) = finish (err e)

  -- A call whose promise nobody awaits.
  abbrev pub start_task : {A : Type 0} → Task S C V A → Proc S C V
  start_task t = t ended
