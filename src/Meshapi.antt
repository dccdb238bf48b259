-- ===== src/Meshapi.antt =====
-- go-meshapi-client/meshapi: the client of meshStack's API that the Go programs share.
pub mod Auth
pub mod Client
mod Tests
