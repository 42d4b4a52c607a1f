-- ===== src/MePage/Forms.antt =====
-- The form of the contact data, and the request that saves it.
use adscope_identity.Prelude.{string_equality}
