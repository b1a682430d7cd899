-- ===== src/DropFiles.antt =====
-- web/src/utils/dropFiles.ts: the files of what is dropped on the page.
pub mod Tree
pub mod Collect
mod Laws
pub mod Sorting
mod Outcome
mod Examples
