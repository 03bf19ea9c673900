-- ===== src/Lib.antt =====
-- Shardscape: an object store with an S3 interface whose sites replicate by a log of facts.
--
-- The program's parts and the files that model them:
-- - Hashing (src/hashing.rs): shard ids and the key range of a prefix. Hashing/Range, Hashing/Panics
--   and Hashing/Shards hold the theorems, Hashing/Utf8 the standard library's check of UTF-8.
-- - Chunking (src/chunking.rs): `FixedSizeStrategy` and `DynamicCDCStrategy` as values of the interface
--   `ChunkingStrategy`; theorems in Chunking/Fixed, Chunking/Cdc and Chunking/Stream.
-- - Policy (src/db.rs) with the presets of src/main.rs in Policy/Presets; Policy/Allowed.
-- - Disk (src/disk.rs): the write guard; Disk/Check.
-- - Clock (src/clock.rs, and `refresh_clock_offset` of src/main.rs); Clock/Drift.
-- - Table: SQL tables as rows under a primary key, with the statements that src/store.rs writes;
--   Table/Lww is last write wins.
-- - Store (src/store.rs): the tables in one record, and one function per method in Store/Objects,
--   Store/Blocks, Store/Queries, Store/Gc, Store/Multipart, Store/Nodes, Store/Queue, Store/Facts and
--   Store/Users, named as the methods are. Theorems: Store/Manifests, Store/Registers,
--   Store/Locations, Store/Cursors, Store/Log, Store/Sorting, Store/Listing, Store/Walk; and on replication
--   Store/Writes, Store/Convergence and Store/Sites.
-- - Sweep (`sweep_orphaned_blocks` of src/storage.rs); Sweep/Reaped, Sweep/Live and Sweep/Kept.
-- - Distributed (`DistributedBlockStore`, `plan_replication` and `drain_replication_queue`, whose pause
--   under disk pressure is in Distributed/Cycle, of src/storage.rs), over the interface `BlobStore`,
--   which Distributed/Local implements; Distributed/Integrity, Distributed/Plan, Distributed/Drain,
--   Distributed/Kept.
-- - Range (`resolve_range`, `slice_blocks_for_range`, `slice_block_bytes` of src/storage.rs);
--   Range/Resolve and Range/Slices.
-- - Delimiter (`list_page`, `group_by_delimiter`, `merge_and_truncate` of src/storage.rs);
--   Delimiter/Groups and Delimiter/Pages.
-- - S3 (`authorize`, `check_writable`, `put_object`, `delete_object`, `delete_objects` of
--   src/storage.rs); S3/Access, S3/Body, S3/Put, S3/Stocked, S3/PutGet, and S3/Chunkers for what a
--   put asks of a chunker.
--   S3/Get is `get_object`, with the block fetches in order; S3/Get/Serve.
--   S3/Copy is `head_object`, `copy_object` and the handlers of buckets, S3/Listings the three
--   listings, S3/Multipart the uploads in parts, with `upload_part_copy` in S3/Multipart/PartCopy and
--   the listings of parts and uploads in S3/Multipart/Pages. S3/Copy/Copied, S3/Multipart/Parts,
--   S3/Multipart/Completed and S3/Access/Writers prove.
-- - Noise (src/noise_transport.rs): `NoiseStream` over a script of what the stream below does, its
--   reading half in Noise/Reader and its writing half in Noise/Writer. Noise/Frames, Noise/Sent,
--   Noise/Received, Noise/Halves, Noise/Progress, Noise/Polls and Noise/Session prove. Noise/Handshake is
--   the handshake with its keys, as both sides run it, and Noise/Handshake/Agreed is about it.
-- - Internal (`handle_internal_request` of src/main.rs), with `url_query_pairs` and `percent_decode` in
--   Internal/Query and `perform_join_handshake` and `gossip_membership` in Internal/Join. Internal/Lossy
--   is the standard library's `from_utf8_lossy`; Internal/Registered, Internal/Guarded and
--   Internal/Gossip prove.
-- - Sync (`sync_facts_once` of src/main.rs, for one peer); Sync/Pull, Sync/Ends.
-- Base is shared, Fixtures holds test data, and the Examples files hold tests and runs of the theorems.
--
-- How the parts interact: a handler cuts a body into blocks (Chunking), stores them (Distributed) and
-- writes a manifest (Store); each change of the store appends a fact to the site's log, which the
-- other sites pull (Sync) and apply (Store/Facts); an announced block is queued and drained
-- (Distributed); the sweep removes blocks that no manifest names.
--
-- State is passed explicitly: an operation takes a store or a site and returns the new one. Texts are
-- their bytes in UTF-8, and SQLite compares them as such. Each reading of the system's clock is an
-- argument `system`, in microseconds since the epoch; a request reads it once.
--
-- Other code is a parameter: blake3, hex and serde_json are the record `Crates`, FastCDC is a function
-- from a buffer to its first cut, md5, `statvfs`, LIKE, requests to peers and blob backends are functions.
-- What is relied on is stated as a hypothesis with its name: `Laws` (texts parse back), `BlobLaws` (a
-- backend keeps what it was given), `IsChunker`; `Conserves` is what a
-- put asks of a chunker; `CipherLaws` (what one end seals the other opens), `MovesNothing` (a flush) and
-- `Agree` (two ends with the same key complete the handshake).
--
-- Bounds and fuel: sizes and offsets in a body are numbers without a bound, where the program has u64;
-- timestamps and sizes in rows are integers. i64 with its wrap-around is written out in Clock and in
-- the backoff, and the length of a slice in Range (`span`) wraps as u64 does in a release build.
-- `fixed_loop` and `cdc_loop` take as much fuel as the buffer has bytes and one more, `scan` one more
-- than its cap, `poll_read` one more than the bytes and polls left; theorems say that this is enough.
-- `sync_peer` has the fuel of its caller, since the program's loop has no bound.
--
-- Not modelled: failures of SQLite and of the disk beyond a refused write, logging, echoes of a
-- request and times of an answer in the S3 answers, configuration and command line, and `parse_size` and
-- `format_bytes`, which compute with floating point numbers.
pub mod Base
pub mod Table
pub mod Hashing
pub mod Chunking
pub mod Policy
pub mod Disk
pub mod Clock
pub mod Store
pub mod Sweep
pub mod Range
pub mod Distributed
pub mod Delimiter
pub mod Sync
mod Fixtures
pub mod S3
pub mod Internal
pub mod Noise
