-- ===== src/Sdk/Client/Laws.antt =====
-- What the methods of the client do on every path.
pub mod Init
pub mod Text
pub mod Exchange
pub mod Token
pub mod Requests
