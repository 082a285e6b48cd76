-- ===== src/Shell.antt =====
-- assignment3-1/jankersh.c
pub mod Lexer
pub mod Job
pub mod Exec
pub mod Builtin
pub mod Rounds
mod Examples
