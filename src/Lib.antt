-- ===== src/Lib.antt =====
-- HydrAIDE, a database of "swamps" of keyed treasures. This library models the parts of its Go code
-- that keep the data: the append-only file behind a swamp, the compressor that its blocks go through,
-- the lock that callers of the database queue for, the guard of a treasure, the vigil that a
-- shutdown waits for, the names of swamps, the patches that change a
-- treasure's MessagePack data, and the buckets that find treasures by the value of a field.
--
-- The parts, and the files that model them:
--
--   app/core/compressor/compressor.go: Compressor.antt. The four compression packages are a record
--     `Packages` of functions, of the calls of a writer where the code writes to one and closes it, and `Compressor.RoundTrip.Documented` says what their documentation
--     promises. `Compressor.Stored` is a concrete instance.
--
--   app/core/hydra/swamp/chronicler/v2/types.go: Storage/Header.antt (FileHeader, both versions),
--     Storage/BlockHeader.antt, Storage/Entry.antt, Storage/Metadata.antt (SwampMetadata),
--     Storage/Checksum.antt (CRC-32) and Storage/Errors.antt. Bytes are numbers; fixed-width fields are
--     written little-endian and cut to their width as Go's conversions cut them.
--
--   app/core/hydra/swamp/chronicler/v2/block.go: Storage/Block.antt (WriteBuffer, Block and their
--     functions). Storage/Block/Image.antt describes a block's bytes.
--
--   app/core/hydra/swamp/chronicler/v2/writer.go: Storage/Writer.antt. A file (Storage/OsFile.antt) is
--     its bytes and a position. Storage/Writer/Log.antt has the writer's invariant: the file is a
--     header, a name and blocks, and the blocks with the buffer make the log of all entries. The time
--     is an argument.
--
--   app/core/hydra/swamp/chronicler/v2/reader.go: Storage/Reader.antt, and CalculateFragmentation in
--     Storage/Fragmentation.antt. ReadAllEntries takes any callback with a state of its own.
--     Storage/Reader/Torn.antt is about files whose last write was cut off.
--
--   Storage/Sessions.antt composes writers and readers: one writer after another on a path, then a
--     reader.
--
--   app/core/hydra/swamp/chronicler/v2/compactor.go: Storage/Compactor.antt, on a disk of two paths, the
--     file's and the temporary file's. The order in which a Go map yields its pairs is a parameter, and so
--     is how the rename and the `os.Stat` after it end.
--
--   app/core/hydra/lock/lock.go: Lock.antt. A channel that is only closed is a flag, and closing it twice
--     is a panic, a value of its own. Lock/Events.antt has the calls, timers and cancelled contexts that
--     reach a lock as a list of events.
--
--   app/core/hydra/swamp/treasure/guard/guard.go: Guard.antt. Guard/Turns.antt has its callers as a step
--     relation: a call that waits goes on when the condition of its loop holds.
--
--   app/core/hydra/swamp/vigil/vigil.go: Vigil.antt. Vigil/Wakeup.antt has the waiter and the operations
--     that begin and end as a step relation, with the steps that another goroutine can come between.
--
--   app/name/name.go: Name.antt, the names of swamps, their paths and folder numbers. The hash function is
--     an argument.
--
--   app/core/hydra/swamp/treasure/msgpackpatch: Patch.antt. Patch/Skeleton.antt is the tree that
--     skeleton.go makes of a blob, Patch/Parse.antt the parser and the serializer, Patch/Path.antt and
--     Patch/Resolve.antt the paths, Patch/Apply the operations, Patch/Condition.antt the conditions. A
--     pointer into the tree is the node with a function that puts another into its place. The package
--     vmihailenco/msgpack is a record `Msgpack` of functions; `Documented` and `DocumentedNumbers` say
--     what is relied on. Patch/Tests/Codec.antt is an instance.
--
--   app/core/hydra/swamp/bucket and app/core/hydra/swamp/swamp_bucket.go: Bucket.antt. Bucket/Canon.antt
--     has the keys of valuecanon.go, with float64 as a bit pattern, Bucket/Extract.antt the field of a
--     body, Bucket/Slots.antt the two maps and Bucket/State.antt the bucket's methods. A Go map with keys
--     of any kind is a list of slots, since a NaN is found in none. Bucket/Shared.antt has the swamp's
--     treasures beside a bucket, with the changes that the bucket has not been notified of, and the
--     steps of goroutines as events in any order, the two critical sections of a round of
--     DrainPending as two of them. Bucket/Notify.antt is about notifications, which come in the
--     order of the changes of a key but not of the changes of several. Bucket/Drain.antt is about
--     rounds one at a time; Bucket/Tests.antt has a run in which two overlap. msgpack.Unmarshal and
--     the conversions of float64 are arguments.
--
--   app/core/hydra/swamp/metadata/metadata.go: Meta.antt, with the file of the path beside the metadata.
--     encoding/gob is a pair of functions. Meta/Kept.antt has the calls and restarts as a list.
--
-- Base.antt has what they share: lists over the native numbers, little-endian numbers, association
-- lists for Go's maps, results with an error.
--
-- Bounds: a block size of at most 524280 keeps a block below 65536 entries, since an entry takes 8 bytes
-- or more; data of an entry has fewer than 2^31 bytes in the theorems on the writer, so that a block
-- stays below 2^32. The reader's loops recurse on fuel, one more than the number of data bytes, which is enough as a
-- block takes 16 bytes or more. The parser of blobs recurses on
-- one more than the blob's length, which is enough as each level takes a byte. Counters of 64 bits wrap
-- around.
--
-- Not modelled: errors of the operating system's other calls, fsync and concurrency inside a writer (its
-- methods hold a mutex); the rounding of float64 ratios, which are exact fractions here; CompactDirectory
-- and GetFullHashPath, which walk and join file paths. The swamp, its beacons, the gateway
-- and the command line tool are outside of this library so far.
pub mod Base
pub mod Bucket
pub mod Compressor
pub mod Guard
pub mod Lock
pub mod Meta
pub mod Name
pub mod Patch
pub mod Storage
pub mod Vigil
