-- ===== src/ThemeMode.antt =====
-- web/src/utils/themeMode.ts: the light, dark or system theme, where it is kept and what it changes.
pub mod Store
mod Laws
mod Examples
pub use Store.*
