-- ===== src/RequestContext.antt =====
-- middleware/request_context.go: the values that go with a request through HTTP and gRPC.
pub mod Fields
pub mod Context
pub mod Setters
pub mod Getters
pub mod Metadata
pub mod Http
pub mod Laws
pub mod Hop
pub mod Gateway
