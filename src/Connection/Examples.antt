-- ===== src/Connection/Examples.antt =====
-- internal/app/connection: the theorems at concrete inputs.
mod EventMaps
mod Handlers
mod Transports
mod Links
