-- ===== src/DirectoryPage/Samples.antt =====
-- Two units, and an order of names.
use Prim.Native.Nat.{Ordering}
use adscope_identity.Prelude.{none, some, List, [], ◌∷◌}
use adscope_identity.Types.{OrganizationalUnit}
use adscope_identity.Directory.{Collation}

-- A comparison under which all names are equal.
abbrev pub no_order : Collation
no_order = record { by_chinese = λ a b. Ordering.eq; by_default = λ a b. Ordering.eq }

abbrev pub units : List OrganizationalUnit
units =
    record { id = "hq"; name = "Headquarters"; parent_id = none; changed_revision = 1 }
    ∷ record { id = "it"; name = "IT"; parent_id = some "hq"; changed_revision = 2 }
    ∷ []
