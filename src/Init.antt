-- ===== src/Init.antt =====
-- cmd/init, the program that turns the template into a project: it strips the features that are not
-- wanted.
pub mod Strip
pub mod Blocks
pub mod Newlines
pub mod Manifest
pub mod Rename
pub mod Residual
pub mod Pipeline
mod Tests
