-- ===== src/Httpapi.antt =====
-- internal/httpapi: entity tags, the bearer token, the replies and the handlers.
pub mod Etag
pub mod Auth
pub mod Reply
pub mod Dto
pub mod Pages
pub mod Admin
pub mod Listing
pub mod Publishing
pub mod Public
pub mod Seo
pub mod Html
pub mod Routes
pub mod Router
pub mod Middleware
