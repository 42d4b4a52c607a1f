-- ===== src/Async/Rules.antt =====
-- A proof rule for asynchronous programs: what every stretch between two waits keeps holds in
-- every interleaving. The invariant may count the requests that are in flight.
use adscope_identity.Prelude.{
  ℕ, ◌+◌, ◌≡◌, refl, subst, Option, none, some, List, [], ◌∷◌, ◌++◌, arith,
}
use adscope_identity.Async.{Outcome, ok, err, Proc, finish, get, put, await, gather}
use adscope_identity.Async.Machine.{
  Run, Resume, Machine, Step, Reach, start, next, launch, resume, here, left, right, run, join,
  join_on, outcome?, add_loose, threads_of, held, all_held,
}

-- A program that is done holds nothing.
abbrev Done : Option (Outcome (Unit {0})) → ℕ → Type 0
Done none x = Unit
Done (some o) x = x ≡ 0

module _ {S C : Type 0} {V : C → Type 0} (weight : C → ℕ) (J : ℕ → S → Type 0)
    (K : C → S → Type 0) where
  -- From the store `s`, where the other programs hold `b` units, the program keeps `J` at each of
  -- its waits, where it holds the weight of the call, makes only calls that `K` allows, and holds
  -- nothing at its end.
  abbrev pub Ensures : ℕ → Proc S C V → S → Type 0
  Ensures b (finish o) s = J b s
  Ensures b (get f) s = Ensures b (f s) s
  Ensures b (put s' p) s = Ensures b p s'
  Ensures b (await c k) s =
      K c s
      × J (b + weight c) s
      × ((o : Outcome (V c)) (t : S) (d : ℕ) → J (d + weight c) t → Ensures d (k o) t)
  Ensures b (gather p q k) s =
      Ensures b p s
      × ((t : S) (d : ℕ) → J d t → Ensures d q t)
      × ((o : Outcome (Unit {0})) (t : S) (d : ℕ) → J d t → Ensures d (k o) t)

  -- A program that waits and holds `n` units.
  abbrev pub Parked : ℕ → Proc S C V → Type 0
  Parked n (finish o) = n ≡ 0
  Parked n (get f) = ⊥
  Parked n (put s p) = ⊥
  Parked n (await c k) =
      (n ≡ weight c)
      × ((o : Outcome (V c)) (t : S) (d : ℕ) → J (d + weight c) t → Ensures d (k o) t)
  Parked n (gather p q k) =
      (x : ℕ) × (y : ℕ) × (n ≡ x + y)
      × Parked x p
      × Parked y q
      × ((o : Outcome (Unit {0})) (t : S) (d : ℕ) → J d t → Ensures d (k o) t)

  -- Programs that wait and hold `n` units together.
  abbrev pub AllParked : ℕ → List (Proc S C V) → Type 0
  AllParked n [] = n ≡ 0
  AllParked n (p ∷ ps) = (x : ℕ) × (y : ℕ) × (n ≡ x + y) × Parked x p × AllParked y ps

  -- What a run leaves, where the others hold `b` units.
  abbrev pub Sound : ℕ → Run S C V → Type 0
  Sound b r = (n : ℕ) × J (b + n) r.state × AllParked n (threads_of r)

  AllParked-append :
      (x y : ℕ) (ps qs : List (Proc S C V))
      → AllParked x ps
      → AllParked y qs
      → AllParked (x + y) (ps ++ qs)
  AllParked-append x y [] qs h k = subst (λ n. AllParked n qs) (omega arith) k
  AllParked-append x y (p ∷ ps) qs (a, b, e, h, hs) k =
      (a, b + y, omega arith, h, AllParked-append b y ps qs hs k)

  AllParked-split :
      (n : ℕ) (ps qs : List (Proc S C V))
      → AllParked n (ps ++ qs)
      → (x : ℕ) × (y : ℕ) × (n ≡ x + y) × AllParked x ps × AllParked y qs
  AllParked-split n [] qs h = (0, n, omega arith, refl, h)
  AllParked-split n (p ∷ ps) qs (a, b, e, h, hs) =
      let (x, y, e', hx, hy) = AllParked-split b ps qs hs in
      (a + x, y, omega arith, (a, x, refl, h, hx), hy)

  -- Units of the others may be counted with the run's own.
  add_loose-Sound :
      (b z : ℕ) (ps : List (Proc S C V)) (r : Run S C V)
      → AllParked z ps
      → Sound (b + z) r
      → Sound b (add_loose ps r)
  add_loose-Sound b z ps r h (n, j, (x, y, e, hr, hl)) = (
    x + (z + y),
    subst (λ m. J m r.state) (omega arith) j,
    (x, z + y, refl, hr, AllParked-append z y ps r.loose h hl),
  )

  one-AllParked : (n : ℕ) (p : Proc S C V) → Parked n p → AllParked n (p ∷ [])
  one-AllParked n p h = (n, 0, omega arith, h, refl)

  Parked-Done : (x : ℕ) (p : Proc S C V) → Parked x p → Done (outcome? p) x
  unfolding outcome?
  Parked-Done x (finish o) h = h
  Parked-Done x (get f) h = tt
  Parked-Done x (put s p) h = tt
  Parked-Done x (await c k) h = tt
  Parked-Done x (gather p q k) h = tt

  -- What follows a `Promise.all` is sound from every store that keeps the invariant.
  abbrev Follows : (Outcome (Unit {0}) → S → Run S C V) → Type 0
  Follows go = (o : Outcome (Unit {0})) (t : S) (d : ℕ) → J d t → Sound d (go o t)

  abbrev Continues : (Outcome (Unit {0}) → Proc S C V) → Type 0
  Continues k = (o : Outcome (Unit {0})) (t : S) (d : ℕ) → J d t → Ensures d (k o) t

  module _ (go : Outcome (Unit {0}) → S → Run S C V) (k : Outcome (Unit {0}) → Proc S C V)
      (follows : Follows go) (continues : Continues k) where
    after_failure :
        (b x y : ℕ) (o : Outcome (Unit {0})) (q : Proc S C V) (s : S)
        → x ≡ 0
        → Parked y q
        → J (b + (x + y)) s
        → Sound b (add_loose (q ∷ []) (go o s))
    after_failure b x y o q s e h j =
        add_loose-Sound b y (q ∷ []) (go o s) (one-AllParked y q h)
          (follows o s (b + y) (subst (λ m. J m s) (omega arith) j))

    both_wait :
        (b x y : ℕ) (p q : Proc S C V) (s : S)
        → Parked x p
        → Parked y q
        → J (b + (x + y)) s
        → Sound b (record { state = s; rest = gather p q k; loose = [] })
    both_wait b x y p q s hp hq j =
        (x + y, j, (x + y, 0, omega arith, (x, y, refl, hp, hq, continues), refl))

    join_on-Sound :
        (b x y : ℕ) (op oq : Option (Outcome (Unit {0}))) (p q : Proc S C V) (s : S)
        → Done op x
        → Done oq y
        → Parked x p
        → Parked y q
        → J (b + (x + y)) s
        → Sound b (join_on go k op oq p q s)
    unfolding join_on
    join_on-Sound b x y (some (err e)) oq p q s dx dy hp hq j =
        after_failure b x y (err e) q s dx hq j
    join_on-Sound b x y none (some (err e)) p q s dx dy hp hq j =
        after_failure b y x (err e) p s dy hp (subst (λ m. J m s) (omega arith) j)
    join_on-Sound b x y (some (ok a)) (some (err e)) p q s dx dy hp hq j =
        follows (err e) s b (subst (λ m. J m s) (omega arith) j)
    join_on-Sound b x y (some (ok a)) (some (ok c)) p q s dx dy hp hq j =
        follows (ok tt) s b (subst (λ m. J m s) (omega arith) j)
    join_on-Sound b x y none none p q s dx dy hp hq j = both_wait b x y p q s hp hq j
    join_on-Sound b x y none (some (ok c)) p q s dx dy hp hq j = both_wait b x y p q s hp hq j
    join_on-Sound b x y (some (ok a)) none p q s dx dy hp hq j = both_wait b x y p q s hp hq j

    join-Sound :
        (b x y : ℕ) (p q : Proc S C V) (s : S)
        → Parked x p
        → Parked y q
        → J (b + (x + y)) s
        → Sound b (join go k p q s)
    unfolding join
    join-Sound b x y p q s hp hq j =
        join_on-Sound b x y (outcome? p) (outcome? q) p q s (Parked-Done x p hp)
          (Parked-Done y q hq) hp hq j

  -- A program that ensures the invariant runs up to waits that keep it.
  run-Sound : (p : Proc S C V) (s : S) (b : ℕ) → Ensures b p s → Sound b (run p s)
  unfolding run
  run-Sound (finish o) s b h =
      (0, subst (λ m. J m s) (omega arith) h, (0, 0, omega arith, refl, refl))
  run-Sound (get f) s b h = run-Sound (f s) s b h
  run-Sound (put t p) s b h = run-Sound p t b h
  run-Sound (await c k) s b (_, j, h) = (weight c, j, (weight c, 0, omega arith, (refl, h), refl))
  run-Sound (gather p q k) s b (hp, hq, hk) =
      let r = run p s in
      let (n, j, (x, x', e, gp, gl)) = run-Sound p s b hp in
      let t = run q r.state in
      let (m, i, (y, y', e', gq, gl')) = run-Sound q r.state (b + n) (hq r.state (b + n) j) in
      add_loose-Sound b (x' + y') (r.loose ++ t.loose) _
        (AllParked-append x' y' r.loose t.loose gl gl')
        (join-Sound (λ o. run (k o)) k (λ o u d w. run-Sound (k o) u d (hk o u d w)) hk
          (b + (x' + y')) x y r.rest t.rest t.state gp gq
          (subst (λ l. J l t.state) (omega arith) i))

  Resume-Sound :
      {p : Proc S C V} {s : S} {r : Run S C V} (n b : ℕ)
      → Resume p s r
      → Parked n p
      → J (b + n) s
      → Sound b r
  Resume-Sound n b (here c k o s) (e, h) j =
      run-Sound (k o) s b (h o s b (subst (λ m. J (b + m) s) e j))
  Resume-Sound n b (left p q k s r u) (x, y, e, hp, hq, hk) j =
      let (m, i, (x', z, e', gp, gl)) =
        Resume-Sound x (b + y) u hp (subst (λ l. J l s) (omega arith) j) in
      add_loose-Sound b z r.loose _ gl (
        join-Sound (λ o. run (k o)) k (λ o v d w. run-Sound (k o) v d (hk o v d w)) hk (b + z) x' y
          r.rest q r.state gp hq (subst (λ l. J l r.state) (omega arith) i))
  Resume-Sound n b (right p q k s r u) (x, y, e, hp, hq, hk) j =
      let (m, i, (y', z, e', gq, gl)) =
        Resume-Sound y (b + x) u hq (subst (λ l. J l s) (omega arith) j) in
      add_loose-Sound b z r.loose _ gl (
        join-Sound (λ o. run (k o)) k (λ o v d w. run-Sound (k o) v d (hk o v d w)) hk (b + z) x y'
          p r.rest r.state hp gq (subst (λ l. J l r.state) (omega arith) i))

  -- The invariant of the event loop: all programs wait, and `J` holds with the units that they hold
  -- together.
  pub record IsSound (m : Machine S C V) : Type 0 where
    pub held : ℕ
    pub holds : J held m.state
    pub parked : AllParked held m.threads

  -- The units that a waiting program holds are the weights of its calls.
  Parked-held : (n : ℕ) (p : Proc S C V) → Parked n p → n ≡ held weight p
  unfolding held
  Parked-held n (finish o) h = h
  Parked-held n (get f) h = absurd h
  Parked-held n (put s p) h = absurd h
  Parked-held n (await c k) h = h.0
  Parked-held n (gather p q k) (x, y, e, hp, hq, _) =
      omega (arith, Parked-held x p hp, Parked-held y q hq)

  pub AllParked-held : (n : ℕ) (ps : List (Proc S C V)) → AllParked n ps → n ≡ all_held weight ps
  unfolding all_held
  AllParked-held n [] h = h
  AllParked-held n (p ∷ ps) (x, y, e, hp, hs) =
      omega (arith, Parked-held x p hp, AllParked-held y ps hs)

  module _ (IsEntry : Proc S C V → Type 0)
      (entries : (p : Proc S C V) (s : S) (b : ℕ) → IsEntry p → J b s → Ensures b p s) where
    Step-IsSound : {m u : Machine S C V} → Step IsEntry m u → IsSound m → IsSound u
    Step-IsSound (launch p m e) i =
        let (n, j, h) = run-Sound p m.state i.held (entries p m.state i.held e i.holds) in
        record {
          held = n + i.held;
          holds = subst (λ l. J l (run p m.state).state) (omega arith) j;
          parked = AllParked-append n i.held (threads_of (run p m.state)) m.threads h i.parked;
        }
    Step-IsSound (resume before after p s r u) i =
        let (x, y, e, hx, (a, z, e', ha, hz)) =
          AllParked-split i.held before (p ∷ after) i.parked in
        let (n, j, h) = Resume-Sound a (x + z) u ha (subst (λ l. J l s) (omega arith) i.holds) in
        record {
          held = x + (n + z);
          holds = subst (λ l. J l r.state) (omega arith) j;
          parked =
              AllParked-append x (n + z) before _ hx
                (AllParked-append n z (threads_of r) after h hz);
        }

    -- Programs that each ensure the invariant keep it in every interleaving.
    pub Reach-IsSound : {m u : Machine S C V} → IsSound m → Reach IsEntry m u → IsSound u
    Reach-IsSound i start = i
    Reach-IsSound i (next r st) = Step-IsSound st (Reach-IsSound i r)
