-- ===== src/Http.antt =====
-- The HTTP side of the server: the request as the handlers see it and the responses.
pub mod Text
pub mod Request
pub mod Response
pub mod Handle
