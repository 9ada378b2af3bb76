-- ===== src/Codec.antt =====
-- common/src/codec.cpp, the wire format. The parts are in the modules below: messages as JSON
-- values, the UTF-8 check, AES-CBC, frames, and the loops over `read` and `write`.
pub mod Json
pub mod Message
pub mod Utf8
pub mod Aes
pub mod Frame
pub mod Socket
