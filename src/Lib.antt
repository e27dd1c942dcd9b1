-- ===== src/Lib.antt =====
-- The hashline file-tool server (README.md): tools that read, search and edit files by snapshot
-- identity and line positions. A client reads pages of a file, each line at its position, and gets
-- the identity of the text; it edits by position under that identity; a stale identity is refused with
-- the current lines around. This library models the parts that decide what a client sees and what
-- happens to its files.
--
-- Prelude        lists, results, numbers and bytes that the parts share. A text is the list of its UTF-8
--                bytes; a usize and a u64 are numbers within 64 bits, with their checked operations.
-- Crates         what memchr, simdutf8, xxhash-rust and serde_json give, as a parameter with the
--                documented behaviour as laws; a hash is any function into 128 bits. So is whether the
--                allocator has memory for a line table (`try_reserve_exact`): any answer at all.
-- Protocol       src/protocol.rs. Codec: decimals, positions, identities, write preconditions and their
--                `FromStr` and `Display`. Errors: contract errors and structured errors. Requests:
--                their validation. Text, Lines, Edits, Context, Versioned: the reference model, from
--                `validate_text` and `reference_line_starts` to `apply_reference_edits`,
--                `reference_context`, `apply_versioned_reference_edits`, `validate_reference_cursor`
--                and `validate_reference_write`.
-- Snapshot       src/snapshot.rs: `Snapshot`, its lazy line table (Offsets), `FileStamp` (Stamp), and
--                `Snapshot::load` (Load), which reads a file through one descriptor and compares its
--                metadata before and after.
-- Engine         src/edit/engine.rs: `apply_edits_fast`, which works on a snapshot's line table and
--                falls back to the reference model where it gives up.
-- Paths, Os      the standard library's paths, and the calls of the operating system. A `Program`
--                makes a call and goes on with its answer, and any answer may come: so what other
--                processes and threads do between two calls is covered. `Always Q [] p` says that Q
--                holds of the calls and of the result at the end of every run of p.
-- Persist        src/persist.rs: `atomic_write` and `atomic_create`, with what a log of calls says of
--                the files (Effects).
-- Render         src/render.rs: `render_snapshot_page`.
-- Workspace      src/util.rs: where the path of a request leads, and the confinement to the root.
-- Tools          `run` of src/edit/mod.rs (Edit), of src/write.rs (Write) and of src/read.rs (Read), with
--                the error answers of src/util.rs (Failures).
-- Cache          src/cache.rs. A shard with `get`, `insert` and its eviction, `invalidate`, and the locked
--                blocks of `get_or_load` (Flight); any sequence of these (Reached); and `get_or_load` as
--                a program (Loading), to which a locked block is a call. The order in which a `HashMap`
--                lists its keys is a parameter. The eviction loop takes as many rounds as the map has
--                entries, each of which removes one.
-- Search         src/glob.rs (Glob) and src/grep.rs (Grep): the spans of context, the section of a file
--                (Grep), the report of all hits (Report), the search of files and of a walk (Files), and
--                `run` (Request). A pattern compiler, a searcher and a walk are other crates': the first
--                two are parameters, any function at all, and the walk is a call.
-- Server         src/server.rs: the root of the server and its adoption from the roots of a client; the
--                listing of the tools and the dispatch by name (Dispatch), with the outcomes of
--                src/util.rs. serde_json is a parameter, any functions at all.
-- Tests          the theorems at concrete inputs.
--
-- The parts meet as in the code: Load ends in the same constructor of snapshots as `from_bytes`, the
-- engine and the pages read a snapshot through its line table, Persist compares the stamps that Load
-- took, the tools resolve a path before they use it, a read goes through the cache to Load, and the
-- tools are composed of these. Each file names the code that it is about.
--
-- Bounds: sizes are capped as in the code (2 ^ 63 - 1 bytes), positions are 64-bit numbers, an
-- identity has 128 bits. The loop over `read` in `Snapshot::load` takes a number of rounds, and a run
-- that uses them up is `running`; Snapshot.Load.Ending says which number is enough. The loop up to an
-- existing ancestor takes one round more than the path has components, as each round drops one.
--
-- Every call is answered in the model, that for a lock and that for another caller's load too: a thread
-- that waits for ever is not in it.
--
-- The answer of a walk is the list of the entries that the workers visit, in the order in which their
-- visits take effect: which entries those are when a worker has asked the walk to quit is the walker's
-- choice.
--
-- Not modelled: the tool descriptions and schemas of src/server.rs, its handlers that pass a request of
-- the MCP library on, and src/main.rs; serde and schema adapters and tracing, which decide nothing; a
-- panic of a blocking task; Windows, where stamps are taken in another way; buffer capacities; the hash
-- that chooses a shard.
mod Prelude
pub mod Crates
pub mod Protocol
pub mod Snapshot
pub mod Engine
pub mod Paths
pub mod Os
pub mod Persist
pub mod Render
pub mod Tools
pub mod Workspace
pub mod Cache
pub mod Search
pub mod Server
mod Tests
