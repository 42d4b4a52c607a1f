-- ===== src/Async/Machine.antt =====
-- The event loop: programs that wait, and the steps that start or resume one of them.
use adscope_identity.Prelude.{ℕ, ◌+◌, ◌≡◌, refl, arith, Option, none, some, List, [], ◌∷◌, ◌++◌}
use adscope_identity.Async.{Outcome, ok, err, Proc, finish, get, put, await, gather}

-- The store and the program after it ran as far as it could, and the programs that it left running
-- behind: the others of a `Promise.all` that one failure settled.
pub record Run (S C : Type 0) (V : C → Type 0) : Type 0 where
  pub state : S
  pub rest : Proc S C V
  pub loose : List (Proc S C V)

module _ {S C : Type 0} {V : C → Type 0} where
  unfoldable pub outcome? : Proc S C V → Option (Outcome (Unit {0}))
  outcome? (finish o) = some o
  outcome? (get f) = none
  outcome? (put s p) = none
  outcome? (await c k) = none
  outcome? (gather p q k) = none

  abbrev pub add_loose : List (Proc S C V) → Run S C V → Run S C V
  add_loose ps r = record r { loose = ps ++ r.loose }

  -- `Promise.all` settles by the first failure, or when all its programs are done; `go` runs what
  -- follows.
  unfoldable pub join_on :
      (Outcome (Unit {0}) → S → Run S C V)
      → (Outcome (Unit {0}) → Proc S C V)
      → Option (Outcome (Unit {0}))
      → Option (Outcome (Unit {0}))
      → Proc S C V
      → Proc S C V
      → S
      → Run S C V
  join_on go k (some (err e)) oq p q s = add_loose (q ∷ []) (go (err e) s)
  join_on go k none (some (err e)) p q s = add_loose (p ∷ []) (go (err e) s)
  join_on go k (some (ok a)) (some (err e)) p q s = go (err e) s
  join_on go k (some (ok a)) (some (ok b)) p q s = go (ok tt) s
  join_on go k none none p q s = record { state = s; rest = gather p q k; loose = [] }
  join_on go k none (some (ok b)) p q s = record { state = s; rest = gather p q k; loose = [] }
  join_on go k (some (ok a)) none p q s = record { state = s; rest = gather p q k; loose = [] }

  unfoldable pub join :
      (Outcome (Unit {0}) → S → Run S C V)
      → (Outcome (Unit {0}) → Proc S C V)
      → Proc S C V
      → Proc S C V
      → S
      → Run S C V
  unfolding join_on outcome?
  join go k p q s = join_on go k (outcome? p) (outcome? q) p q s

  -- A program up to its next waits.
  unfoldable pub run : Proc S C V → S → Run S C V
  unfolding join
  run (finish o) s = record { state = s; rest = finish o; loose = [] }
  run (get f) s = run (f s) s
  run (put s' p) s = run p s'
  run (await c k) s = record { state = s; rest = await c k; loose = [] }
  run (gather p q k) s =
      let r = run p s in
      let t = run q r.state in
      add_loose (r.loose ++ t.loose) (join (λ o. run (k o)) k r.rest t.rest t.state)

  -- One of the promises that a program waits for settles.
  pub data Resume : Proc S C V → S → Run S C V → Type 0 where
    here :
        (c : C) (k : Outcome (V c) → Proc S C V) (o : Outcome (V c)) (s : S)
        → Resume (await c k) s (run (k o) s)
    left :
        (p q : Proc S C V) (k : Outcome (Unit {0}) → Proc S C V) (s : S) (r : Run S C V)
        → Resume p s r
        → Resume (gather p q k) s (add_loose r.loose (join (λ o. run (k o)) k r.rest q r.state))
    right :
        (p q : Proc S C V) (k : Outcome (Unit {0}) → Proc S C V) (s : S) (r : Run S C V)
        → Resume q s r
        → Resume (gather p q k) s (add_loose r.loose (join (λ o. run (k o)) k p r.rest r.state))

-- The store and all programs that have started.
pub record Machine (S C : Type 0) (V : C → Type 0) : Type 0 where
  pub state : S
  pub threads : List (Proc S C V)

abbrev pub threads_of : {S C : Type 0} {V : C → Type 0} → Run S C V → List (Proc S C V)
threads_of r = r.rest ∷ r.loose

-- The weights of the calls that programs wait for.
module _ {S C : Type 0} {V : C → Type 0} (weight : C → ℕ) where
  unfoldable pub held : Proc S C V → ℕ
  held (finish o) = 0
  held (get f) = 0
  held (put s p) = 0
  held (await c k) = weight c
  held (gather p q k) = held p + held q

  unfoldable pub all_held : List (Proc S C V) → ℕ
  unfolding held
  all_held [] = 0
  all_held (p ∷ ps) = held p + all_held ps

-- Weights add up.
module _ {S C : Type 0} {V : C → Type 0} (f g h : C → ℕ) (sum : (c : C) → f c ≡ g c + h c) where
  held-sum : (p : Proc S C V) → held f p ≡ held g p + held h p
  unfolding held
  held-sum (finish o) = refl
  held-sum (get k) = refl
  held-sum (put s p) = refl
  held-sum (await c k) = sum c
  held-sum (gather p q k) = omega (arith, held-sum p, held-sum q)

  pub all_held-sum : (ps : List (Proc S C V)) → all_held f ps ≡ all_held g ps + all_held h ps
  unfolding all_held
  all_held-sum [] = refl
  all_held-sum (p ∷ ps) = omega (arith, held-sum p, all_held-sum ps)

module _ {S C : Type 0} {V : C → Type 0} (IsEntry : Proc S C V → Type 0) where
  -- A handler starts one of the entry programs, or a promise settles.
  pub data Step : Machine S C V → Machine S C V → Type 0 where
    launch :
        (p : Proc S C V) (m : Machine S C V)
        → IsEntry p
        → Step m (record {
          state = (run p m.state).state;
          threads = threads_of (run p m.state) ++ m.threads;
        })
    resume :
        (before after : List (Proc S C V)) (p : Proc S C V) (s : S) (r : Run S C V)
        → Resume p s r
        → Step
            (record { state = s; threads = before ++ p ∷ after })
            (record { state = r.state; threads = before ++ (threads_of r ++ after) })

  pub data Reach (m : Machine S C V) : Machine S C V → Type 0 where
    start : Reach m m
    next : {u v : Machine S C V} → Reach m u → Step u v → Reach m v
