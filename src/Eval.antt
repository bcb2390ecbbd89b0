-- ===== src/Eval.antt =====
-- eval/: the host side of an evaluation.
pub mod Attribute
