-- ===== src/Async/Triples.antt =====
-- Rules for the combinators: a task that starts with `n` units of its own and ends with `m`.
use adscope_identity.Prelude.{ℕ, ◌+◌, ◌≡◌, refl, Bool, true, false, if◌then◌else◌, subst, arith}
use adscope_identity.Async.{
  Failure, Outcome, ok, err, Proc, finish, all_of, get, put, Task, then_do, catch_do, ended,
  start_task, return, throw, ◌>>=◌, catch, finally, read, modify, call,
}
use adscope_identity.Async.Rules.{Ensures}

module _ {S C : Type 0} {V : C → Type 0} (weight : C → ℕ) (J : ℕ → S → Type 0)
    (K : C → S → Type 0) where
  -- What runs after a task may rely on the invariant, with the task's own units.
  abbrev pub Relies : {A : Type 0} → ℕ → (Outcome A → Proc S C V) → Type 0
  Relies {A} n k = (o : Outcome A) (s : S) (b : ℕ) → J (b + n) s → Ensures weight J K b (k o) s

  -- The task keeps the invariant, and holds `n` units of its own at its start and at its end.
  pub record Keeps {A : Type 0} (n : ℕ) (t : Task S C V A) : Type 0 where
    pub ensures :
        (k : Outcome A → Proc S C V)
        → Relies n k
        → (s : S) (b : ℕ) → J (b + n) s
        → Ensures weight J K b (t k) s

  pub then_do-Relies :
      {A B : Type 0} (n : ℕ) (f : A → Task S C V B) (k : Outcome B → Proc S C V)
      → ((a : A) → Keeps n (f a))
      → Relies n k
      → Relies n (then_do f k)
  then_do-Relies n f k hf h (ok a) = (hf a).ensures k h
  then_do-Relies n f k hf h (err e) = h (err e)

  catch_do-Relies :
      {A : Type 0} (n : ℕ) (f : Failure → Task S C V A) (k : Outcome A → Proc S C V)
      → ((e : Failure) → Keeps n (f e))
      → Relies n k
      → Relies n (catch_do f k)
  catch_do-Relies n f k hf h (ok a) = h (ok a)
  catch_do-Relies n f k hf h (err e) = (hf e).ensures k h

  pub bind-Keeps :
      {A B : Type 0} (n : ℕ) (t : Task S C V A) (f : A → Task S C V B)
      → Keeps n t
      → ((a : A) → Keeps n (f a))
      → Keeps n (t >>= f)
  bind-Keeps n t f ht hf = record {
    ensures = λ k h. ht.ensures (then_do f k) (then_do-Relies n f k hf h);
  }

  pub catch-Keeps :
      {A : Type 0} (n : ℕ) (t : Task S C V A) (f : Failure → Task S C V A)
      → Keeps n t
      → ((e : Failure) → Keeps n (f e))
      → Keeps n (catch t f)
  catch-Keeps n t f ht hf = record {
    ensures = λ k h. ht.ensures (catch_do f k) (catch_do-Relies n f k hf h);
  }

  pub return-Keeps : {A : Type 0} (n : ℕ) (a : A) → Keeps n (return a)
  return-Keeps n a = record { ensures = λ k h. h (ok a) }

  pub throw-Keeps : {A : Type 0} (n : ℕ) (e : Failure) → Keeps {A = A} n (throw e)
  throw-Keeps n e = record { ensures = λ k h. h (err e) }

  -- A change of the store that keeps the invariant.
  pub modify-Keeps :
      (n : ℕ) (f : S → S) → ((m : ℕ) (s : S) → J m s → J m (f s)) → Keeps n (modify f)
  modify-Keeps n f hf = record { ensures = λ k h s b j. h (ok tt) (f s) b (hf (b + n) s j) }

  pub finally-Keeps :
      {A : Type 0} (n : ℕ) (t : Task S C V A) (f : S → S)
      → Keeps n t
      → ((m : ℕ) (s : S) → J m s → J m (f s))
      → Keeps n (finally t f)
  finally-Keeps n t f ht hf = record {
    ensures = λ k h.
        ht.ensures (λ o. get (λ s. put (f s) (k o))) (λ o s b j. h o (f s) b (hf (b + n) s j));
  }

  pub read-Keeps :
      {A : Type 0} (n : ℕ) (f : S → Task S C V A) → ((s : S) → Keeps n (f s)) → Keeps n (read >>= f)
  read-Keeps n f hf = record { ensures = λ k h s b j. (hf s).ensures k h s b j }

  pub call-Keeps : (c : C) → ((m : ℕ) (s : S) → J m s → K c s) → Keeps (weight c) (call c)
  call-Keeps c hc = record { ensures = λ k h s b j. (hc (b + weight c) s j, j, λ o t d. h o t d) }

  -- A branch on the store, where each branch has its test.
  pub if-Ensures :
      {A : Type 0} (c : Bool) (t u : Task S C V A) (k : Outcome A → Proc S C V) (s : S) (b : ℕ)
      → (c ≡ true → Ensures weight J K b (t k) s)
      → (c ≡ false → Ensures weight J K b (u k) s)
      → Ensures weight J K b ((if c then t else u) k) s
  if-Ensures true t u k s b ht hu = ht refl
  if-Ensures false t u k s b ht hu = hu refl

  pub if-Keeps :
      {A : Type 0} (n : ℕ) (b : Bool) (t u : Task S C V A)
      → Keeps n t
      → Keeps n u
      → Keeps n (if b then t else u)
  if-Keeps n true t u ht hu = ht
  if-Keeps n false t u ht hu = hu

  -- Two tasks beside one another that each keep the invariant.
  pub all_of-Keeps : (t u : Task S C V (Unit {0})) → Keeps 0 t → Keeps 0 u → Keeps 0 (all_of t u)
  all_of-Keeps t u ht hu = record {
    ensures = λ k h s b j. (
      ht.ensures finish finish-Relies s b j,
      λ w d i. hu.ensures finish finish-Relies w d (subst (λ m. J m w) (omega arith) i),
      λ o w d i. h o w d (subst (λ m. J m w) (omega arith) i),
    );
  }
    where
      finish-Relies :
          (o : Outcome (Unit {0})) (v : S) (d : ℕ)
          → J (d + 0) v
          → Ensures {V = V} weight J K d (finish o) v
      finish-Relies o v d i = subst (λ m. J m v) (omega arith) i

  -- A program whose task keeps the invariant ensures it.
  pub start_task-Ensures :
      {A : Type 0} (t : Task S C V A)
      → Keeps 0 t
      → (s : S) (b : ℕ) → J b s
      → Ensures weight J K b (start_task t) s
  start_task-Ensures {A} t ht s b j =
      ht.ensures ended ended-Relies s b (subst (λ m. J m s) (omega arith) j)
    where
      ended-Relies :
          (o : Outcome A) (u : S) (d : ℕ) → J (d + 0) u → Ensures weight J K d (ended {V = V} o) u
      ended-Relies (ok a) u d i = subst (λ m. J m u) (omega arith) i
      ended-Relies (err e) u d i = subst (λ m. J m u) (omega arith) i
