-- ===== src/Preview.antt =====
-- web/src/preview/resolver.ts and content.ts: which preview a file gets, and reading at most so many of its
-- bytes for it.
mod Content
mod Capped
mod Reading
pub mod Resolver
mod Blobs
mod Screens
mod BlobExamples
pub mod Modal
pub mod Walking
mod Caps
mod Examples
