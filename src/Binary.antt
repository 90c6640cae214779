-- ===== src/Binary.antt =====
-- server/holder/src/blob_handler/blob_binary.go: the file that holds the contents of the blobs.
-- `Codec` has the plain layout, `Chunks` the 4K layout, `Store` the header with its file.
pub mod Words
pub mod Files
pub mod Codec
pub mod Chunks
pub mod Store
mod Tests
