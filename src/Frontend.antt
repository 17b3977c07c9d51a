-- ===== src/Frontend.antt =====
-- src/frontend/tptp_parser.cc: from the text of a problem to clauses.
pub mod Terms
pub mod Lexer
pub mod Problem
pub mod Parser
