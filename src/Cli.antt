-- ===== src/Cli.antt =====
-- The command lines, geminon.c and gurl.c, and the driver fuzz-url.c.
pub mod Cgi
pub mod Configure
pub mod Fuzz
pub mod Geminon
pub mod Gurl
pub mod Handlers
