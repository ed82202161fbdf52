-- ===== src/Signature.antt =====
-- src_py/connection.py: the signatures of parameters, by which prepared statements are cached.
pub mod Pointer
pub mod Shape
pub mod Width
pub mod Merge
pub mod Value
pub mod Lists
pub mod Capi
mod Tests
