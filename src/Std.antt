-- ===== src/Std.antt =====
-- What the program uses of Rust's standard library: I/O errors, UTF-8 text, socket addresses.
pub mod Io
pub mod Utf8
pub mod Net
