-- ===== src/Async/Sends.antt =====
-- The calls that a program makes when the other programs may change the store at each of its waits.
use adscope_identity.Prelude.{
  ℕ, ◌+◌, Option, none, some, Bool, true, false, ◌≡◌, refl, if◌then◌else◌,
}
use adscope_identity.Async.{Outcome, Proc, Task, finish, get, put, await, gather}
use adscope_identity.Async.Rules.{Ensures}

-- The first call of a program that runs from the store, if it makes one.
unfoldable pub first_call : {S C : Type 0} {V : C → Type 0} → Proc S C V → S → Option C
first_call (finish o) s = none
first_call (get f) s = first_call (f s) s
first_call (put s' p) s = first_call p s'
first_call (await c k) s = some c
first_call (gather p q k) s = first_call p s

-- A branch on the store.
pub first_call-else :
    {S C A : Type 0} {V : C → Type 0} (b : Bool) (t u : Task S C V A) (k : Outcome A → Proc S C V)
    (s : S)
    → b ≡ false
    → first_call ((if b then t else u) k) s ≡ first_call (u k) s
first_call-else true t u k s e = absurd (cc e)
first_call-else false t u k s e = refl

module _ {S C : Type 0} {V : C → Type 0} (weight : C → ℕ) (J : ℕ → S → Type 0) where
  -- `Sends p s c t`: the program, from the store `s`, makes the call `c` when the store is `t`. While
  -- it waits, the store may become any store that keeps `J` with the weight of the awaited call.
  pub data Sends : Proc S C V → S → C → S → Type 0 where
    at : (c : C) (k : Outcome (V c) → Proc S C V) (s : S) → Sends (await c k) s c s
    reads : (f : S → Proc S C V) (s : S) (c : C) (t : S) → Sends (f s) s c t → Sends (get f) s c t
    writes :
        (s' : S) (p : Proc S C V) (s : S) (c : C) (t : S) → Sends p s' c t → Sends (put s' p) s c t
    wakes :
        (a : C) (k : Outcome (V a) → Proc S C V) (s : S) (o : Outcome (V a)) (u : S) (d : ℕ) (c : C)
        (t : S)
        → J (d + weight a) u
        → Sends (k o) u c t
        → Sends (await a k) s c t
    in_first :
        (p q : Proc S C V) (k : Outcome (Unit {0}) → Proc S C V) (s : S) (c : C) (t : S)
        → Sends p s c t
        → Sends (gather p q k) s c t
    in_second :
        (p q : Proc S C V) (k : Outcome (Unit {0}) → Proc S C V) (s u : S) (d : ℕ) (c : C) (t : S)
        → J d u
        → Sends q u c t
        → Sends (gather p q k) s c t
    joined :
        (p q : Proc S C V) (k : Outcome (Unit {0}) → Proc S C V) (s : S) (o : Outcome (Unit {0}))
        (u : S) (d : ℕ) (c : C) (t : S)
        → J d u
        → Sends (k o) u c t
        → Sends (gather p q k) s c t

  module _ (K : C → S → Type 0) where
    -- Every call of a program that keeps the invariant is allowed when it is made.
    pub Ensures-Sends :
        {p : Proc S C V} {s : S} {c : C} {t : S} (b : ℕ)
        → Ensures weight J K b p s
        → Sends p s c t
        → K c t
    Ensures-Sends b h (at c k s) = h.0
    Ensures-Sends b h (reads f s c t x) = Ensures-Sends b h x
    Ensures-Sends b h (writes s' p s c t x) = Ensures-Sends b h x
    Ensures-Sends b h (wakes a k s o u d c t j x) = Ensures-Sends d (h.2 o u d j) x
    Ensures-Sends b h (in_first p q k s c t x) = Ensures-Sends b h.0 x
    Ensures-Sends b h (in_second p q k s u d c t j x) = Ensures-Sends d (h.1 u d j) x
    Ensures-Sends b h (joined p q k s o u d c t j x) = Ensures-Sends d (h.2 o u d j) x
