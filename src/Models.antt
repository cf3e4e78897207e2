-- ===== src/Models.antt =====
-- The model catalog: workbuddy/model_class.go (Classes) and the context windows of
-- workbuddy/model_context.go (Context, Lengths).
pub mod Classes
pub mod Context
pub mod Lengths
