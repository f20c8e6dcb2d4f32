-- ===== src/Calc.antt =====
-- The utilities of calc.
pub mod Expr
