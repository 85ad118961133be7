-- ===== src/Js.antt =====
-- JavaScript objects and values, as the source uses them.
pub mod Object
pub mod Value
