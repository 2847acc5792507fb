-- ===== src/Binkp.antt =====
-- The binkp protocol: src/binkp.c and src/binkp/. The frames on the wire, the commands that
-- frames carry, the session's state machine with the authentication, and the options.
pub mod Status
pub mod Frame
pub mod Command
pub mod Auth
pub mod Plz
pub mod Session
pub mod FileCrc
pub mod Resume
