-- ===== src/Discovery.antt =====
-- cpool/grpc/auto_register.go: the services behind the gateway, found by reflection, and the HTTP
-- routes that are registered for them.
pub mod Files
pub mod Reflection
pub mod Routes
pub mod Registration
pub mod Handler
pub mod Connections
pub mod AutoRegister
