-- ===== src/Memory.antt =====
-- How Go lays a struct out in memory on amd64: `unsafe.Sizeof`, and the byte-for-byte copies
-- through `unsafe.Pointer` in MedusaUserlandAgent and MedusaBackend.
pub mod Words
pub mod Layout
