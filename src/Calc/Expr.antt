-- ===== src/Calc/Expr.antt =====
-- calc/expr.rs: tokens, the operations on them, and the evaluation of a sequence of tokens.
pub mod Token
pub mod Ops
pub mod Eval
pub mod Fuel
pub mod Tree
pub mod Range
pub mod Values
pub mod Reparsed
mod Tests
