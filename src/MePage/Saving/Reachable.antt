-- ===== src/MePage/Saving/Reachable.antt =====
-- The saves of the page in every interleaving.
use adscope_identity.Prelude.{ℕ, false, ◌≡◌, refl, subst, inr, []}
use adscope_identity.Async.{Proc, modify, start_task}
use adscope_identity.Async.Machine.{Machine, Reach, all_held}
use adscope_identity.Async.Rules.{Ensures, IsSound, Reach-IsSound, AllParked-held}
use adscope_identity.Async.Triples.{start_task-Ensures}
use adscope_identity.UserApi.State.{Store, Call, Value}
use adscope_identity.UserApi.{Action}
use adscope_identity.MePage.{Page}
use adscope_identity.MePage.Programs.{on_page, mounted, save_contact, save_password, exit_user}
use adscope_identity.MePage.Saving.{weight, IsSaving, Allows}
use adscope_identity.MePage.Saving.Rules.{KeepsSaving, changes}
use adscope_identity.MePage.Saving.Programs.{
  mounted-KeepsSaving, save_contact-KeepsSaving, save_password-KeepsSaving, exit_user-KeepsSaving,
}

-- What the page starts. Its other handlers, such as those of its inputs, leave the flag.
pub data IsEntry : Proc Store Call Value → Type 0 where
  starts_mounted : IsEntry (start_task mounted)
  starts_save_contact : IsEntry (start_task save_contact)
  starts_save_password : IsEntry (start_task save_password)
  starts_exit_user : IsEntry (start_task exit_user)
  starts_change :
      (f : Page → Page)
      → ((p : Page) → (f p).saving ≡ p.saving)
      → IsEntry (start_task (modify (on_page f)))

kept :
    {A : Type 0} {t : Action A} (s : Store) (b : ℕ)
    → IsSaving b s
    → KeepsSaving 0 t
    → Ensures weight IsSaving Allows b (start_task t) s
kept {t} s b j h = start_task-Ensures weight IsSaving Allows t h s b j

entries :
    (p : Proc Store Call Value) (s : Store) (b : ℕ)
    → IsEntry p
    → IsSaving b s
    → Ensures weight IsSaving Allows b p s
entries _ s b starts_mounted j = kept s b j mounted-KeepsSaving
entries _ s b starts_save_contact j = kept s b j save_contact-KeepsSaving
entries _ s b starts_save_password j = kept s b j save_password-KeepsSaving
entries _ s b starts_exit_user j = kept s b j exit_user-KeepsSaving
entries _ s b (starts_change f h) j = kept s b j (changes (on_page f) (λ u. h u.refs.me))

abbrev pub waiting : Store → Machine Store Call Value
waiting s = record { state = s; threads = [] }

waiting-IsSound :
    (s : Store) → s.refs.me.saving ≡ false → IsSound weight IsSaving Allows (waiting s)
waiting-IsSound s e = record { held = 0; holds = inr (e, refl); parked = refl }

-- In every interleaving of the programs of the page that starts without a save, with any answers in
-- any order: `saving` is set exactly as long as a request that changes the contact data or the password
-- is in flight, and never are two of them; so the flag is reset whichever way a save ends.
pub Reach-IsSaving :
    (s : Store) (m : Machine Store Call Value)
    → s.refs.me.saving ≡ false
    → Reach IsEntry (waiting s) m
    → IsSaving (all_held weight m.threads) m.state
Reach-IsSaving s m e r =
    let i = Reach-IsSound weight IsSaving Allows IsEntry entries (waiting-IsSound s e) r in
    subst (λ n. IsSaving n m.state)
      (AllParked-held weight IsSaving Allows i.held m.threads i.parked) i.holds
