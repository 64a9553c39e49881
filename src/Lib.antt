-- ===== src/Lib.antt =====
-- Cachew: the core of a caching proxy, modelled and verified.
--
-- The program is a cache daemon and its client. Strategies answer HTTP requests from a cache that has
-- several backends; conditional and range requests are decided by one representation of their options
-- (client/preconditions.go), which the client, the backends and the handlers share. Background work
-- such as clones and fetches runs on a job scheduler with one queue per repository. Metadata is a
-- database of operations on namespaces, kept in memory or as a journal of segments on S3.
--
-- Files, by the part that they model:
--   Base          native numbers, lists, texts (lists of code points), integers with the wrap-around of
--                 int64, decimal numbers (strconv), association lists for Go maps, and their lemmas.
--   Client        client/preconditions.go: Etag (ValidateRawETag, FormatETag, RawETagFromHeader,
--                 etagListMatches), Options (RequestOptions and Check), ByteRange (Range, ResolveRange);
--                 Buffer, client/stream_buffer.go: the written ranges (extendLocked), and in Buffer/Ring
--                 the ring of pages; Parallel, client/parallel_get.go: the parameters, the dispatch gate,
--                 the requests of a chunk (Fetch), and in Parallel/Download the workers, the gate and the
--                 buffer as one history of steps; Key, client/key.go and client/namespace.go.
--   Http          internal/httputil/headers.go (FilterHeaders), over http.Header.
--   Cache         internal/cache: Short (conditional.go, range.go, etag.go), Memory (memory.go) and
--                 Tiered (tiered.go): how Stat and Open resolve a request from the answers of the tiers,
--                 in Tiered/Write what writes do to the recorded entity tags, and in Tiered/Backfill
--                 the copy that a reader makes on the way. In Memory a Store is what the views of
--                 the namespaces share, a View one *Memory, a Writer one memoryWriter;
--                 Memory/Evict has evictOldest and the commit of a writer. Disk (disk.go) is the files
--                 and the counter, with the writes, in Disk/Open Stat and Open, in Disk/Meta
--                 (disk_metadb.go) the metadata, in Disk/Evict the eviction; a Disk is what the
--                 views share.
--   Serve         internal/httputil/conditional.go: the response to a request from the outcome of a cache.
--   Scheduler     internal/jobscheduler/jobs.go: the state under the lock and its critical sections;
--                 System has every interleaving of them as a step relation.
--   Metadata      internal/metadatadb: Ops (ops.go), Ops/Backend (memory.go), Journal (s3/tick.go,
--                 s3/compact.go, s3/wire.go).
--   Git           internal/strategy/git: Coordinator (snapshotcoord.go), the claims on the generation of a
--                 snapshot, and in Coordinator/Replicas those of replicas that have a view each of
--                 the store and refresh it; Spool (spool.go), a response that readers follow,
--                 in Spool/Tee the writer that fills it.
-- The cache backends use the short circuits, which use the options of the client; the metadata backends
-- and the journal share the operations, which the journal takes as a parameter.
--
-- Conventions. An operation that changes state returns the new state, with an error as a value. A Go
-- map is an association list, each key at most once; the order of its iteration is that of the list.
-- Times are numbers of one clock that the caller reads. Sizes and offsets of objects are natural numbers;
-- integers of the metadata wrap at 64 bits. Loops recur over the lists that they run through; the sort
-- of evictOldest makes as many rounds as there are entries. Some loops recur on fuel: WriteAt, for which
-- the number of bytes is enough as each round writes one at least, and the loop of the gate's complete,
-- for which one more than the window is enough as each round clears a cell; openChunk and fetchChunk
-- recur on the attempts that are left. A call that blocks changes nothing until
-- another call lets it go on, so that a history has it where it goes on; a reader of the spool that waits
-- stays as it is. ServeTo is taken for as many turns as the spool has bytes and six more, which is enough
-- as a turn sends a byte or goes to the next phase. The zero time is 0. A key is its bytes; where 32 are
-- needed that is a hypothesis.
--
-- Parameters: encoding/json with the values that are not int64 (Codec), and what the journal's
-- operations do to a state; what the tiers of a tiered cache answer; and what a server answers to the
-- requests of a chunk, whose tag pins the bytes of the object; SHA-256; the order that sort.Slice gives
-- the files (a permutation with no later file before an earlier one); which calls of the file system, of
-- bbolt and of the metadata store fail.
--
-- Not modelled: a job's body, logs and metrics; the healing goroutine of the tiered cache; the first
-- request of a download and its fall-backs to one stream; the locks and the ticker of the disk cache;
-- calls between the Get and the Set of a claim; the count of a spool's readers and the map of spools; the
-- S3 cache, the rest of the strategies, the clones and the commands, which are mostly input, output and
-- calls of other programs.
pub mod Base
pub mod Client
pub mod Http
pub mod Cache
pub mod Serve
pub mod Scheduler
pub mod Metadata
pub mod Git
