-- ===== src/FileManager.antt =====
-- web/src/pages/FileManager.tsx and components/files/FileClipboard.tsx: what the file manager does with
-- the entries of a directory.
mod Defs
mod Batch
mod Actions
mod Laws
mod Selection
mod Toggling
mod Clipboard
mod Uploads
mod Dropping
mod DropExamples
mod Directories
mod ChosenFiles
mod ChosenExamples
mod Pages
mod PagerExamples
mod Navigation
mod Wayfinding
mod WayExamples
mod Previews
mod Browsing
mod BrowseExamples
mod Examples
