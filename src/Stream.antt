-- ===== src/Stream.antt =====
-- apps/pop_stream.c: byte buffers with a read and a write mark. The children define the functions
-- of the file and prove what they do.
pub mod Buffer
pub mod Get
pub mod Put
pub mod Io
pub mod Valid
pub mod Append
pub mod Words
pub mod Take
pub mod Items
pub mod Messages
pub mod Ops
pub mod Bounds
pub mod Sources
pub mod Safety
pub mod Copies
pub mod Offsets
pub mod InPlace
mod Tests
