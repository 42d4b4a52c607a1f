-- ===== src/Forms/Tests.antt =====
-- Runs of the form parsers, and their laws at concrete fields.
use adscope_identity.Prelude.{◌≡◌, refl, true, [], ◌∷◌, none, some, All}
use adscope_identity.Text.{
  blank, trim, trim_start, trim_end, keep_end, truthy, split, split_step, push_front, join,
}
use adscope_identity.Text.Split.{IsPart}
use adscope_identity.Forms.{nullable, split_members}
use adscope_identity.Forms.Laws.{split_members_normal}

parsers : Unit {0}
unfolding nullable split_members trim trim_start trim_end keep_end blank split split_step push_front
    join
parsers = tt

nullable_trims : nullable "  ops@example.com\n" ≡ some "ops@example.com"
unfolding parsers
nullable_trims = refl

nullable_blank : nullable " \t " ≡ none
unfolding parsers
nullable_blank = refl

split_members_commas : split_members " 1001,, 1002 ,1003," ≡ "1001" ∷ "1002" ∷ "1003" ∷ []
unfolding parsers
split_members_commas = refl

split_members_normal_example :
    All (IsPart b',') (split_members " 1001,,1002")
    × All (λ x. truthy x ≡ true) (split_members " 1001,,1002")
    × (split_members (join ", " (split_members " 1001,,1002")) ≡ split_members " 1001,,1002")
split_members_normal_example = split_members_normal " 1001,,1002"
