-- ===== src/AdminShell/Programs.antt =====
-- portal/web/app/components/admin/AdminShell.vue: what the frame does with the server.
use adscope_identity.Prelude.{Bool, String, true, not, if◌then◌else◌}
use adscope_identity.Text.{trim, truthy}
use adscope_identity.Async.{return, ◌>>=◌, read, modify}
use adscope_identity.AdminApi.State.{Store}
use adscope_identity.AdminApi.{Action, Platform, write_refs}
use adscope_identity.AdminApi.Signing.{logout, authenticate_token, restore_session}

abbrev pub set_draft : String → Store → Store
set_draft draft = write_refs (λ r. record r { shell = record { credential_draft = draft } })

-- `if (await t) { credentialDraft.value = '' }`
abbrev pub clear_draft_after : Action Bool → Action (Unit {0})
clear_draft_after t = t >>= λ done. if done then modify (set_draft "") else return tt

unfoldable pub exit_management : Action (Unit {0})
exit_management = clear_draft_after logout

module _ (platform : Platform) where
  -- The hook `onMounted`.
  unfoldable pub mounted : Action Bool
  mounted = restore_session platform

  unfoldable pub submit_credential : Action (Unit {0})
  submit_credential = read >>= λ s.
      let token = trim s.refs.shell.credential_draft in
      if not (truthy token)
      then return tt
      else clear_draft_after (authenticate_token platform token true)
