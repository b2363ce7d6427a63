-- ===== src/Obsidian.antt =====
-- internal/tools/obsidian: the tools over the vault.
pub mod Outcome
pub mod Coverage
pub mod Coordinate
pub mod Fit
pub mod Base64
pub mod Cursor
pub mod Grep
pub mod Markdown
mod Tests
mod CursorTests
mod GrepTests
mod ReduceTests
mod MarkdownTests
mod WalkTests
