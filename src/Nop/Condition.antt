-- ===== src/Nop/Condition.antt =====
-- nps_sdk/nop/condition.py: the conditions of nodes. `Tokens` is `_tokenize`, `Values` the values and
-- their comparison, `Parser` the class _Parser, which evaluates while it parses.
pub mod Tokens
pub mod Values
pub mod Parser
pub mod Grammar
pub mod Following
pub mod Meaning
pub mod Total
pub mod Lexing
mod Examples
