-- ===== src/Serialization.antt =====
-- serialization/: byte buffers, and the reader and writer over them. (The variable-length integers are
-- in Varint.antt.)
pub mod Buffer
pub mod View
pub mod Reader
pub mod Writer
mod Tests
