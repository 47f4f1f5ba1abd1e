-- ===== src/Lib.antt =====
-- A model of repomofo, a Git implementation in Go, and what is proved of it. Paths are from the
-- repository's root.
--
-- Bytes are naturals in a list; a Go string is the list of its bytes. A uint64 is a natural, and
-- where the source computes in 64 bits the model writes `% 2 ^ 64`. A `(value, error)` pair is the
-- sum `Result`, with a constructor of `Error` for each message. A stream that is read is the list of
-- bytes that is left, a stream that is written the list of bytes so far, so a write never fails.
-- Files in the repository's directory are a map from paths to contents.
--
-- - Base.antt: Booleans, lists, maps, results, bit operations by arithmetic (Base/Bits.antt).
-- - Hex.antt, Number.antt, Text.antt: what the code uses of encoding/hex, strconv, fmt, strings and
--   bytes of Go's standard library, with the lemmas on it in their folders.
-- - Hash.antt: hash.go. The hash functions are no definition; `write_object` takes one as a parameter.
-- - Pkt.antt: net_server_pkt.go, the packet lines under the Git protocol. `readPktLine` and
--   `readPktLineEx` are `read_pkt_line` and `read_pkt_line_ex`. The loop of `sendSideband` runs on as
--   much fuel as there are bytes to send, and each round sends at least one.
-- - Object.antt: the first part of object.go, the kinds and the header of a stored object.
-- - Store.antt: object_memory.go. The reader is a record with the content and the position.
-- - Pack.antt: the entry headers of pack.go: `initPackObjectReaderAtPosition` up to the compressed
--   data, and `writeObjectHeader`. The loops read one byte a round; the one that writes a size runs on
--   as much fuel as the size, and each round divides it by 128.
-- - Readers.antt: the interface `ObjectReader` of object.go as a record of operations, the contract
--   that its callers rely on (`Reads`), and the two loops of pack.go over it. They run on as much fuel
--   as bytes are wanted; under the contract every round gives at least one.
--   Readers/Memory.antt fills the interface with the reader of Store.antt.
-- - Delta.antt: the objects that a pack stores as deltas. `initDelta` is `init_delta`, on the inflated
--   bytes and without the opening of the base; `initCache` is `init_cache` in Delta/Caching.antt;
--   `readDelta`, `Reset`, `Position` and `SkipBytes` are in Delta/Reader.antt, over any two readers,
--   one of the inflated bytes and one of the base. A byte slice that may be nil is an `Option`; the
--   counters of a reader are kept as naturals, which the sizes of the chunks bound.
--   Delta/Stream.antt is `packObjectStream` of an entry, with `readIntoMemoryMaybe`, over a zlib reader that
--   is a parameter: the deltas of pack files are read through it.
--   Delta/Instructions.antt describes the format of the instructions, and what they make of a base.
-- - PackIndex.antt: `searchPackIndexes` and `searchPackIndex` of pack.go, on the bytes of the index
--   files; its folder has the layout of such a file as a specification. The binary search runs on as
--   much fuel as the range of the fanout table has entries. Binary.antt: what it uses of
--   encoding/binary.
-- - Ref.antt: the names, paths and contents of refs in ref.go and branch.go. Refs.antt: the reading,
--   resolving and writing of refs in ref.go. `readRefRecur` and `writeRefRecur` recur with no bound in
--   the source; the model gives them fuel and the value `stuck`, which no Go code returns.
-- - Config.antt: config.go, the configuration in memory. Config/Syntax.antt: its text, read and written.
--   Remotes.antt: the commands of repo.go that change the configuration file. The order in which Go
--   visits a map is a parameter.
-- - Tree.antt: tree objects, the modes of fs.go and the builder and parser of object.go. The parser runs
--   on as much fuel as there are bytes; every round takes at least one.
-- - Commit.antt: commits and tags of object.go, the text of a commit that is not signed, and the parsers.
-- - Index.antt: index.go, the index in memory with its directory maps; Index/Serial.antt: its file, read
--   and written. The loop over the parents of a path has as much fuel as the path has bytes, and the
--   value `stuck` if a parent is left then, which is where the source does not come back. Slash.antt:
--   what it uses of Go's package path.
-- - Repo.antt: `NewObject` of object.go, an object read from the store and parsed. The store is a function
--   from hexadecimal names, as both implementations look objects up by these; `memory_repo` is the one
--   of Store.antt.
-- - Heap.antt: container/heap of the standard library. Merge.antt: the search for a merge's base in
--   merge.go, `getDescendent` and `commonAncestor`. Their loops follow parents and have fuel, and give
--   `none` without it; the results say that the weights of the two commits are enough, by any weights
--   with which a commit outweighs its parents together.
-- - Iterator.antt: the object iterator of object.go, with `drain`, the loop in which its callers call
--   `Next`. The fuel is as for Merge.antt, by the weight of what waits.
-- - ReceivePack.antt: net_server_receive_pack.go, `readRefUpdates` of the server's side of a push, on
--   the packet lines of Pkt.antt: the features behind a NUL, the two hashes and the name of the ref.
--   The loop has one round more than the reader has bytes, and each round takes four bytes at least.
--   ReceivePack/Checks.antt: the checks of `applyRefUpdate`, the search for a descendent in Merge.antt
--   among them, whose fuel they are given.
-- - Diff.antt: diff.go, the edits that `next` of `myersDiffIterator` gathers from the ranges where two
--   texts differ, what `get` finds in them, and `diff3Iterator`. The loops of the latter have fuel by the
--   lines that are left, and `all_chunks`, which calls `next` until it returns nil, by one more than these.
-- - Tests.antt: runs on concrete inputs, and an instance of each result.
--
-- The memory store implements the interface of object.go that the pack code and the server use:
-- Delta.antt reads its base through it, and is such a reader itself. Refs hold hashes, and the header of an
-- object is shared by the stores.
--
-- Not modelled: zlib, the operating system's errors other than a missing file, permissions, the
-- working directory, the merge of changed paths, the search for the ranges where two texts differ, tree
-- comparison, signatures, what the server does above the packet lines but for the requests and the
-- checks of receive-pack, and the command line.
pub mod Base
pub mod Hex
pub mod Hash
pub mod Number
pub mod Text
pub mod Pkt
pub mod Object
pub mod Readers
pub mod Delta
pub mod Binary
pub mod PackIndex
pub mod Store
pub mod Pack
pub mod Ref
pub mod Refs
pub mod Config
pub mod ReceivePack
pub mod Remotes
pub mod Tree
pub mod Commit
pub mod Slash
pub mod Index
pub mod Repo
pub mod Heap
pub mod Merge
pub mod Iterator
pub mod Diff
pub mod Tests
