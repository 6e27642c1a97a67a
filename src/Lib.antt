-- ===== src/Lib.antt =====
-- Verification library for kraken, a peer-to-peer distribution system for container images.
--
-- An agent or an origin runs a scheduler (lib/torrent/scheduler), one event loop that owns the
-- connection state, the announce queue and a dispatcher for each torrent; a dispatcher asks the
-- piece request manager which pieces to request from a peer, and writes what it receives to the
-- torrent's storage. Around it stand caches, health checks of hosts, and deduplicated requests.
-- Each part is modelled from its Go source, as a record for its state and a function for each
-- operation that returns the new state beside the result:
--
--   AnnounceQueue    lib/torrent/scheduler/announcequeue/queue.go
--   ConnState        lib/torrent/scheduler/connstate/{state,config}.go
--   Scheduler        lib/torrent/scheduler/{state,events}.go: the event loop on the two above
--   Dispatcher       lib/torrent/scheduler/dispatch: the messages of a torrent's peers, with
--                    utils/syncutil/counters.go
--   PieceRequest     lib/torrent/scheduler/dispatch/piecerequest: the manager and its policies
--   PriorityQueue    utils/heap/priority_queue.go, with the loops of Go's container/heap
--   MetaInfo         core/metainfo.go: the pieces of a blob
--   AgentTorrent     lib/torrent/storage/agentstorage/{pieces,torrent}.go
--   BlobMemoryCache  utils/cache/blob_memory_cache.go, and its use in lib/store/ca_store.go
--   LruCache         utils/cache/lru.go
--   FileStore        lib/store/base/{file_entry,file_op,file_map}.go: the files on disk,
--                    with lib/store/ca_download_store.go
--   RequestCache     utils/dedup/request_cache.go
--   IntervalTrap     utils/dedup/interval_trap.go
--   HashRing         lib/hashring/ring.go, lib/hrw/rendezvous.go
--   HealthCheck      lib/healthcheck: the active and the passive filter
--   PersistedRetry   lib/persistedretry/manager.go
--   StringSet        utils/stringset/stringset.go
--   Base             helpers: tests on numbers, lists over native numbers, integers, Go's maps
--
-- The names of the functions are those of the source in snake case. The event loop, or the
-- component's own lock, makes each operation atomic, so an interleaving is a list of calls, or
-- where a call has several critical sections, a sequence of steps of goroutines (`Step`, `Reach`).
-- Two components are coarser than the code. The handlers of a dispatcher run to their end one after
-- the other, though each peer has a goroutine, so a piece that another peer's handler completes
-- between the read of the bit field and the request is not seen. The calls of the file store do not
-- overlap, though an eviction chooses its entry and removes it in two critical sections
-- (`choose_oldest`, `evict`).
--
-- Conventions. Info hashes, peer ids, digests, addresses and errors are compared for equality only;
-- each is a number. Times and durations are nanoseconds on the native numbers; `a.Sub(b) > d` is
-- `b + d < a`. The reading of a clock or of a random source, and what the file store or a check
-- answers, is an argument of the operation. A Go map is an association list (Base/Maps): the
-- result of a loop over a map is the one for the list's order, and the theorems hold for every
-- order. Sizes of blobs are 64-bit numbers with their wrap-around; limits, thresholds and counters
-- are `int`s that are not negative and do not overflow. The indices, offsets and lengths of a peer's
-- messages and the piece length of `NewMetaInfo` are signed numbers (Base/Integers). Log lines and metrics are left out. A nil
-- error is `none`.
--
-- Fuel. The sift loops of the heap run on the length of the slice, which the index that they change
-- does not exceed; the loop that reads a blob runs on one more than its length, and takes a whole
-- piece off in each round but the last; the loop of the rarest-first policy, and the loop
-- of an announce tick, take an item off their queue in each round.
--
-- The disk of the file store is a map from a state's directory to the directories of its entries,
-- with their data file and the files of their metadata; it fails only on files that are missing or
-- there.
--
-- Not modelled: network input and output, the readers and writers of files, the servers, storage
-- backends, and the clients of databases.
pub mod AgentTorrent
pub mod AnnounceQueue
pub mod Base
pub mod BlobMemoryCache
pub mod ConnState
pub mod Dispatcher
pub mod FileStore
pub mod HashRing
pub mod HealthCheck
pub mod IntervalTrap
pub mod LruCache
pub mod MetaInfo
pub mod PersistedRetry
pub mod PieceRequest
pub mod PriorityQueue
pub mod RequestCache
pub mod Scheduler
pub mod StringSet
