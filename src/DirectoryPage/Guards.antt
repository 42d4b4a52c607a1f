-- ===== src/DirectoryPage/Guards.antt =====
-- What the page asks the administrator and the server only under a condition.
use adscope_identity.Prelude.{
  ℕ, true, false, All, string_equality, option_equality, any-All, ◌≡◌, ◌≢◌, inl, inr, Bool-cases,
  some, arith,
}
use adscope_identity.Types.{OrganizationalUnit}
use adscope_identity.Async.{start_task}
use adscope_identity.Async.Rules.{Ensures}
use adscope_identity.Async.Sends.{Sends, Ensures-Sends}
use adscope_identity.AdminApi.State.{Store, Data, Call}
use adscope_identity.AdminApi.{Platform}
use adscope_identity.AdminApi.Session.{weight}
use adscope_identity.DirectoryPage.{is_in_use}
use adscope_identity.DirectoryPage.Removals.{remove_ou}

-- The unit has no child, user or group.
pub record IsEmpty (ou : OrganizationalUnit) (d : Data) : Type 0 where
  pub childless : All (λ item. item.parent_id ≢ some ou.id) d.organizational_units
  pub no_users : All (λ user. user.organizational_unit_id ≢ ou.id) d.users
  pub no_groups : All (λ group. group.organizational_unit_id ≢ ou.id) d.groups

is_in_use-IsEmpty :
    (ou : OrganizationalUnit) (d : Data)
    → is_in_use ou d.organizational_units d.users d.groups ≡ false
    → IsEmpty ou d
unfolding is_in_use
is_in_use-IsEmpty ou d h = record {
  childless = any-All (λ item. item.parent_id) (some ou.id) d.organizational_units (ground arith);
  no_users = any-All (λ user. user.organizational_unit_id) ou.id d.users (ground arith);
  no_groups = any-All (λ group. group.organizational_unit_id) ou.id d.groups (ground arith);
}

-- Other programs may leave any store.
abbrev pub Anything : ℕ → Store → Type 0
Anything n s = Unit

abbrev None : Call → Store → Type 0
None c s = ⊥

silent :
    (platform : Platform) (ou : OrganizationalUnit) (s : Store)
    → is_in_use ou s.content.organizational_units s.content.users s.content.groups ≡ true
    → Ensures weight Anything None 0 (start_task (remove_ou platform ou)) s
unfolding remove_ou
silent platform ou s e = rw (e, Ensures) tt

-- If the removal of a unit makes any call at all, if only to ask the administrator, then the unit had
-- no child, user or group in the data that was loaded when it started.
pub remove_ou-IsEmpty :
    (platform : Platform) (ou : OrganizationalUnit) (s : Store) (c : Call) (t : Store)
    → Sends weight Anything (start_task (remove_ou platform ou)) s c t
    → IsEmpty ou s.content
remove_ou-IsEmpty platform ou s c t h =
    elim (Bool-cases
      (is_in_use ou s.content.organizational_units s.content.users s.content.groups)) [
        | inr e ↦ is_in_use-IsEmpty ou s.content e
        | inl e ↦ absurd (Ensures-Sends weight Anything None 0 (silent platform ou s e) h)
      ]
