-- ===== src/Lio.antt =====
-- The interpreter of scripts: src/lio.c with the built-ins of src/lio_basics.c and the variables of
-- src/lio_references.c.
pub mod Syntax
pub mod Values
pub mod Variables
pub mod Basics
pub mod Eval
pub mod Ends
pub mod Arithmetic
pub mod Lexer
pub mod Reader
pub mod Names
pub mod Flash
