-- ===== src/Async/Alone.antt =====
-- Programs that run alone: no other program changes the store while they wait, and each call settles
-- as a function tells.
use adscope_identity.Prelude.{
  Bool, true, false, if◌then◌else◌, Option, none, some, ◌≡◌, refl, ◌∙◌, subst,
}
use adscope_identity.Async.{
  catch, catch_do, Failure, Outcome, ok, err, Proc, finish, get, put, await, gather, Task, return,
  throw, ◌>>=◌, then_do, finally, read, modify, call,
}

-- How the program ends, and the store that it leaves. Programs of `Promise.all`, which run beside one
-- another, do not run alone.
unfoldable pub alone :
    {S C : Type 0} {V : C → Type 0}
    → ((c : C) → Outcome (V c))
    → Proc S C V
    → S
    → Option (Outcome (Unit {0}) × S)
alone answers (finish o) s = some (o, s)
alone answers (get f) s = alone answers (f s) s
alone answers (put s' p) s = alone answers p s'
alone answers (await c k) s = alone answers (k (answers c)) s
alone answers (gather p q k) s = none

module _ {S C : Type 0} {V : C → Type 0} (answers : (c : C) → Outcome (V c)) where
  -- The task ends, with an outcome and a store for which `R` holds.
  pub record Does {A : Type 0} (t : Task S C V A) (s : S) (R : Outcome A → S → Type 0)
      : Type 0 where
    pub outcome : Outcome A
    pub store : S
    pub runs :
        (k : Outcome A → Proc S C V) → alone answers (t k) s ≡ alone answers (k outcome) store
    pub result : R outcome store

  pub return-Does :
      {A : Type 0} {s : S} {R : Outcome A → S → Type 0} (a : A) → R (ok a) s → Does (return a) s R
  return-Does {s} a h = record { outcome = ok a; store = s; runs = λ k. refl; result = h }

  pub throw-Does :
      {A : Type 0} {s : S} {R : Outcome A → S → Type 0} (e : Failure)
      → R (err e) s
      → Does (throw e) s R
  throw-Does {s} e h = record { outcome = err e; store = s; runs = λ k. refl; result = h }

  pub modify-Does :
      {s : S} {R : Outcome (Unit {0}) → S → Type 0} (f : S → S)
      → R (ok tt) (f s)
      → Does (modify f) s R
  unfolding alone
  modify-Does {s} f h = record { outcome = ok tt; store = f s; runs = λ k. refl; result = h }

  -- The task ends with the outcome and the store.
  abbrev Ends : {A : Type 0} → Task S C V A → S → Outcome A → S → Type 0
  Ends t s o u = (k : Outcome _ → Proc S C V) → alone answers (t k) s ≡ alone answers (k o) u

  bound :
      {A B : Type 0} {s : S} {R : Outcome B → S → Type 0} (t : Task S C V A) (f : A → Task S C V B)
      (o : Outcome A) (u : S)
      → Ends t s o u
      → ((a : A) → o ≡ ok a → Does (f a) u R)
      → ((e : Failure) → o ≡ err e → R (err e) u)
      → Does (t >>= f) s R
  bound t f (ok a) u h g g' =
      let d = g a refl in
      record {
        outcome = d.outcome;
        store = d.store;
        runs = λ k. h (then_do f k) ∙ d.runs k;
        result = d.result;
      }
  bound t f (err e) u h g g' = record {
    outcome = err e;
    store = u;
    runs = λ k. h (then_do f k);
    result = g' e refl;
  }

  pub bind-Does :
      {A B : Type 0} {t : Task S C V A} {f : A → Task S C V B} {s : S} {P : Outcome A → S → Type 0}
      {R : Outcome B → S → Type 0}
      → Does t s P
      → ((a : A) (u : S) → P (ok a) u → Does (f a) u R)
      → ((e : Failure) (u : S) → P (err e) u → R (err e) u)
      → Does (t >>= f) s R
  bind-Does {t} {f} {P} h g g' =
      bound t f h.outcome h.store h.runs (λ a e. g a h.store (subst (λ o. P o h.store) e h.result))
        (λ x e. g' x h.store (subst (λ o. P o h.store) e h.result))

  pub modify_then-Does :
      {B : Type 0} {f : Unit {0} → Task S C V B} {s : S} {R : Outcome B → S → Type 0} (m : S → S)
      → ((a : Unit {0}) → Does (f a) (m s) R)
      → Does (modify m >>= f) s R
  unfolding alone
  modify_then-Does {f} {s} m g =
      bound (modify m) f (ok tt) (m s) (λ k. refl) (λ a _. g a) (λ e q. absurd (cc q))

  pub read_then-Does :
      {B : Type 0} {f : S → Task S C V B} {s : S} {R : Outcome B → S → Type 0}
      → ((x : S) → s ≡ x → Does (f x) s R)
      → Does (read >>= f) s R
  unfolding alone
  read_then-Does {f} {s} g =
      bound read f (ok s) s (λ k. refl) (λ a e. g a (cc e)) (λ e q. absurd (cc q))

  pub call_then-Does :
      {B : Type 0} (c : C) {f : V c → Task S C V B} {s : S} {R : Outcome B → S → Type 0}
      → ((v : V c) → answers c ≡ ok v → Does (f v) s R)
      → ((e : Failure) → answers c ≡ err e → R (err e) s)
      → Does (call c >>= f) s R
  unfolding alone
  call_then-Does c {f} {s} g g' = bound (call c) f (answers c) s (λ k. refl) g g'

  pub weaken-Does :
      {A : Type 0} {t : Task S C V A} {s : S} {P R : Outcome A → S → Type 0}
      → Does t s P
      → ((o : Outcome A) (u : S) → P o u → R o u)
      → Does t s R
  weaken-Does h g = record {
    outcome = h.outcome;
    store = h.store;
    runs = h.runs;
    result = g h.outcome h.store h.result;
  }

  pub finally-Does :
      {A : Type 0} {t : Task S C V A} {s : S} {R : Outcome A → S → Type 0} (f : S → S)
      → Does t s (λ o u. R o (f u))
      → Does (finally t f) s R
  unfolding alone
  finally-Does f h = record {
    outcome = h.outcome;
    store = f h.store;
    runs = λ k. h.runs (λ o. get (λ s. put (f s) (k o)));
    result = h.result;
  }

  pub if-Does :
      {A : Type 0} {t u : Task S C V A} {s : S} {R : Outcome A → S → Type 0} (b : Bool)
      → Does t s R
      → Does u s R
      → Does (if b then t else u) s R
  if-Does true h g = h
  if-Does false h g = g

  -- A test, with its result.
  pub test-Does :
      {A : Type 0} {t u : Task S C V A} {s : S} {R : Outcome A → S → Type 0} (b : Bool)
      → (b ≡ true → Does t s R)
      → (b ≡ false → Does u s R)
      → Does (if b then t else u) s R
  test-Does true h g = h refl
  test-Does false h g = g refl

  handled :
      {A : Type 0} {s : S} {R : Outcome A → S → Type 0} (t : Task S C V A)
      (f : Failure → Task S C V A) (o : Outcome A) (u : S)
      → Ends t s o u
      → ((a : A) → o ≡ ok a → R (ok a) u)
      → ((e : Failure) → o ≡ err e → Does (f e) u R)
      → Does (catch t f) s R
  handled t f (ok a) u h g g' = record {
    outcome = ok a;
    store = u;
    runs = λ k. h (catch_do f k);
    result = g a refl;
  }
  handled t f (err e) u h g g' =
      let d = g' e refl in
      record {
        outcome = d.outcome;
        store = d.store;
        runs = λ k. h (catch_do f k) ∙ d.runs k;
        result = d.result;
      }

  pub catch-Does :
      {A : Type 0} {t : Task S C V A} {f : Failure → Task S C V A} {s : S}
      {P R : Outcome A → S → Type 0}
      → Does t s P
      → ((a : A) (u : S) → P (ok a) u → R (ok a) u)
      → ((e : Failure) (u : S) → P (err e) u → Does (f e) u R)
      → Does (catch t f) s R
  catch-Does {t} {f} {P} h g g' =
      handled t f h.outcome h.store h.runs
        (λ a e. g a h.store (subst (λ o. P o h.store) e h.result))
        (λ x e. g' x h.store (subst (λ o. P o h.store) e h.result))

  pub call-Does :
      {s : S} (c : C) {R : Outcome (V c) → S → Type 0} → R (answers c) s → Does (call c) s R
  unfolding alone
  call-Does {s} c h = record { outcome = answers c; store = s; runs = λ k. refl; result = h }
