-- ===== src/Connection.antt =====
-- internal/app/connection: the client connections, from the code that they share to the two
-- transports.
pub mod Types
pub mod Cache
pub mod EventMap
pub mod Buffer
pub mod Session
pub mod WebSocket
pub mod EventStream
pub mod Handler
pub mod Samples
pub mod Fixtures
pub mod Examples
