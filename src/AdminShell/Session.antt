-- ===== src/AdminShell/Session.antt =====
-- The programs of the frame and the invariant of the administrator's session.
use adscope_identity.Prelude.{String, Bool, true, not}
use adscope_identity.Text.{trim, truthy}
use adscope_identity.AdminApi.{Action, Platform}
use adscope_identity.AdminApi.Signing.{logout}
use adscope_identity.AdminApi.Session.{
  KeepsSession, Preserves, write_refs-Preserves, in_turn, gives, either, changes, reads,
}
use adscope_identity.AdminApi.Session.Commands.{
  logout-Keeps, restore_session-Keeps, authenticate_token-Keeps,
}
use adscope_identity.AdminShell.Programs.{
  set_draft, clear_draft_after, exit_management, mounted, submit_credential,
}

set_draft-Preserves : (draft : String) → Preserves (set_draft draft)
set_draft-Preserves draft =
    write_refs-Preserves (λ r. record r { shell = record { credential_draft = draft } })

clear_draft_after-Keeps :
    (t : Action Bool) → KeepsSession 0 t → KeepsSession 0 (clear_draft_after t)
clear_draft_after-Keeps t h =
    in_turn h (λ done. either done (changes (set_draft-Preserves "")) (gives tt))

pub exit_management-Keeps : KeepsSession 0 exit_management
unfolding exit_management
exit_management-Keeps = clear_draft_after-Keeps logout logout-Keeps

module _ (platform : Platform) where
  pub mounted-Keeps : KeepsSession 0 (mounted platform)
  unfolding mounted
  mounted-Keeps = restore_session-Keeps platform

  pub submit_credential-Keeps : KeepsSession 0 (submit_credential platform)
  unfolding submit_credential
  submit_credential-Keeps = reads (λ s.
      let token = trim s.refs.shell.credential_draft in
      either (not (truthy token)) (gives tt)
        (clear_draft_after-Keeps _ (authenticate_token-Keeps platform token true)))
