-- ===== src/MePage/Saving/Rules.antt =====
-- The rules of what holds of the flag `saving`.
use adscope_identity.Prelude.{ℕ, Bool, true, false, ◌≡◌, refl, sym, subst, ◌⊎◌, if◌then◌else◌}
use adscope_identity.Async.{Failure, return, throw, ◌>>=◌, catch, finally, read, modify, call}
use adscope_identity.Async.Triples.{
  Keeps, if-Keeps, bind-Keeps, catch-Keeps, return-Keeps, throw-Keeps, modify-Keeps, finally-Keeps,
  read-Keeps, call-Keeps,
}
use adscope_identity.UserApi.State.{Store, Call}
use adscope_identity.UserApi.{Action, raise_pending, lower_pending, track_request}
use adscope_identity.MePage.Saving.{weight, IsSaving, Allows}

abbrev pub KeepsSaving : {A : Type 0} → ℕ → Action A → Type 0
KeepsSaving n t = Keeps weight IsSaving Allows n t

-- A change of the store that leaves the flag.
abbrev pub LeavesFlag : (Store → Store) → Type 0
LeavesFlag f = (s : Store) → (f s).refs.me.saving ≡ s.refs.me.saving

pub moved :
    (f : Store → Store) → LeavesFlag f → (n : ℕ) (s : Store) → IsSaving n s → IsSaving n (f s)
moved f h n s j = subst (λ b. ((b ≡ true) × (n ≡ 1)) ⊎ ((b ≡ false) × (n ≡ 0))) (sym (h s)) j

module _ {A : Type 0} {n : ℕ} where
  pub in_turn :
      {B : Type 0} {t : Action B} {f : B → Action A}
      → KeepsSaving n t
      → ((b : B) → KeepsSaving n (f b))
      → KeepsSaving n (t >>= f)
  in_turn {t} {f} h k = bind-Keeps weight IsSaving Allows n t f h k

  pub caught :
      {t : Action A} {f : Failure → Action A}
      → KeepsSaving n t
      → ((e : Failure) → KeepsSaving n (f e))
      → KeepsSaving n (catch t f)
  caught {t} {f} h k = catch-Keeps weight IsSaving Allows n t f h k

  pub gives : (a : A) → KeepsSaving n (return a)
  gives a = return-Keeps weight IsSaving Allows n a

  pub fails : (e : Failure) → KeepsSaving {A = A} n (throw e)
  fails e = throw-Keeps weight IsSaving Allows n e

  pub either :
      (b : Bool) {t u : Action A}
      → KeepsSaving n t
      → KeepsSaving n u
      → KeepsSaving n (if b then t else u)
  either b {t} {u} h k = if-Keeps weight IsSaving Allows n b t u h k

  pub after :
      {t : Action A} (f : Store → Store)
      → LeavesFlag f
      → KeepsSaving n t
      → KeepsSaving n (finally t f)
  after {t} f h k = finally-Keeps weight IsSaving Allows n t f k (moved f h)

  pub reads :
      {f : Store → Action A} → ((s : Store) → KeepsSaving n (f s)) → KeepsSaving n (read >>= f)
  reads {f} h = read-Keeps weight IsSaving Allows n f h

pub changes : {n : ℕ} (f : Store → Store) → LeavesFlag f → KeepsSaving n (modify f)
changes {n} f h = modify-Keeps weight IsSaving Allows n f (moved f h)

pub calls : (c : Call) (n : ℕ) → weight c ≡ n → KeepsSaving n (call c)
calls c n e =
    subst (λ m. KeepsSaving m (call c)) e (call-Keeps weight IsSaving Allows c (λ m s j. tt))

pub tracked :
    {A : Type 0} (n : ℕ) (t : Action A) → KeepsSaving n t → KeepsSaving n (track_request t)
unfolding track_request
tracked n t h = in_turn (changes raise_pending (λ s. refl)) (λ _. after lower_pending (λ s. refl) h)
