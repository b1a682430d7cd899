-- ===== src/Api.antt =====
-- web/src/api: the requests of the client, and what it makes of the answers.
pub mod Json
mod Client
pub mod Calls
pub mod Sources
pub mod Shares
mod Admin
mod Account
mod Routes
mod SourceRoutes
mod SourceQueries
mod AdminSourceRoutes
mod AdminRoutes
mod AccountRoutes
mod ShareRoutes
mod RawUrls
mod ShareUrls
mod Session
mod TokenHeader
mod TokenLog
mod Tokens
mod Logout
mod Downloads
mod Errors
mod Examples
