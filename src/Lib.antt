-- ===== src/Lib.antt =====
-- Riverpass: the holder server of an object-storage cache.
--
-- The holder keeps blobs in triplets. A triplet is three files with one identifier: the content
-- (blob_binary.go), the index of the blobs in it (blob_index.go) and the manifest, a log of the
-- actions on it (blob_manifest.go), all in server/holder/src/blob_handler. The handler
-- (physical_blob_handler.go) holds the open, the closed and the large triplets in three LRU caches
-- (lru.go), reserves room for each blob, and names it by a token (common/util/blob_token.go). The
-- files table (server/holder/src/db_ops/files_db.go) says which ranges of a file are committed
-- (common/range_code/range_code.go, the list functions of blobs_db.go) and which triplet holds it. The
-- cache manager (server/holder/src/cache_ops) fetches missing files, writes them through the file
-- writer and evicts triplets. The server (server/holder/src/oss_cache_main.go) looks a requested file
-- up in the table, puts a missing one in the manager's queue, and reads a cached one through the file
-- reader (server/holder/src/file_handler).
--
-- Files and what they model:
--   Prelude     names shared by all, lists and integers over the native numbers, byte strings,
--               results (a value, an error, or the end of the process), maps as association lists
--   Lru         lru.go: Node and LruCache as one record of functions on addresses. New, Get, Put,
--               addToHead, deleteNode, moveToHead, removeTail, GetCurTailNameForEvict, GetSize,
--               DeleteFromCache under their names; a model of it is a list of entries by recency
--   Binary      blob_binary.go: BinHeader as the bytes of the file and CurOff. New, Put, Get, flush,
--               readBlob and readBlob4K are in Binary/Store, Encode and Decode in Binary/Codec,
--               Encode4K and Decode4K with their chunks in Binary/Chunks
--   Log         the flush that blob_index.go and blob_manifest.go share line by line
--   Index       blob_index.go: IndexHeader with New, create, load, Put, Get, Delete, Close
--   Manifest    blob_manifest.go: MFHeader with New, create, load, Put, Delete and its deletion log
--   Token       blob_token.go
--   Holder      physical_blob_handler.go: Triplet and PhyBH, with the triplets on a heap of pointers;
--               Put in Holder/Put, Get in Holder/Get, eviction, PurgeTriplet and a round of
--               LoopHotSwap in Holder/Swap. Holder/Sound follows one triplet through the three steps of
--               Put, Holder/Stored and Holder/Trip a blob through Put and Get. PhyBH.New and ScanLocalFS
--               are in Holder/Startup. Holder/Swap/Closing compares Get before and after the closing of
--               triplets. Holder/Concurrent is the steps of several calls of Put on
--               totalBytes, in any order, and Holder/Concurrent/Mutex the same with the lock, the
--               test, the reservation and the unlock of the mutex apart
--   RangeCode   range_code.go: RangeCode, ToDbEntry and countDigits
--   RangeList   IsRangeCollision, IsRangeFullCoverage and InsertRangeCodeList of blobs_db.go
--   Meta        common/definition/meta_define.go and the conversions of files_db.go
--   FileTable   files_db.go: the rows of the files table and one function for each statement
--   Segments    blobs_db.go: the rows of the segments table, one function for each statement, and
--               CommitBlobInDB as one step on both tables
--   FileReader  server/holder/src/file_handler/file_reader.go: ReadAt, ReadFromCache, readPiece
--   FileWriter  server/holder/src/file_handler/file_writer.go: WriteAt, WriteFileToCache, Close
--   Server      oss_cache_main.go: OssHolderServer with its mutex as a flag; TryReadFromCache cut at its
--               branches (read_missing, read_state, read_ready, read_ranges), and HttpRead
--   Manager     server/holder/src/cache_ops/cache_manager.go: CacheManager with its queues, a round of
--               loopBatchWrite and of loopGarbageCollection, and dowloadAndWriteCache; CheckUrl and
--               DownLoad in Manager/Fetch
--
-- State is passed explicitly; a method, or the part of one that holds a lock, is one step. The methods
-- of the LRU cache hold their locks in parts and are one step each all the same, so that calls that
-- run inside one another are not modelled there. Errors of the program are constructors of Error, a
-- panic and a ZapLogger.Fatal are crash. A transaction gives the table of its commit, or an error with
-- the table as it was. Lengths and offsets are natural numbers and the signed fields are integers; the
-- words of the content file keep their eight bytes with the wrap-around, and the theorems on them say
-- that a length is below 2 ^ 63. The int32 offsets and sizes of the file reader and writer wrap
-- around. Other additions of int64 values are exact.
--
-- Fuel: countDigits and Itoa run on the number itself, which every division by ten makes smaller;
-- the chunk loops of Encode4K and Decode4K run on the length of the data, which every chunk shortens.
--
-- Parameters: encoding/json (Marshal and Unmarshal of an entry, a range, a row's meta data), the
-- random identifiers, rand.Intn, the order of sync.Map.Range, whether a write to the content file, the
-- removal of a file or a statement succeeds, what the disk holds when a triplet is opened or purged, and
-- what the object store answers. A write to the index or to the manifest is taken to succeed when the
-- file is there. A theorem that needs more of encoding/json says so: each padding character is one byte
-- of the text, and a text that was written is read back.
--
-- Not modelled: the HTTP server of the standard library and the set-up of the process, the
-- configuration, logging, and the connection retry. The goroutines of one round of the cache manager,
-- and those of ReadAt, are taken one after the other; a request that finds the server's mutex held
-- waits, and is otherwise one step. ORDER BY compares bytes.
pub mod Binary
pub mod FileReader
pub mod FileTable
pub mod FileWriter
pub mod Holder
pub mod Index
pub mod Log
pub mod Lru
pub mod Manager
pub mod Manifest
pub mod Meta
pub mod Prelude
pub mod RangeCode
pub mod RangeList
pub mod Segments
pub mod Server
pub mod Token
