-- ===== src/Tests.antt =====
mod Clients
mod Commands
mod Files
mod Paths
pub mod Peers
mod Programs
mod Requests
mod Responses
mod Scenes
mod Servers
mod Urls
