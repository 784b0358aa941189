-- ===== src/Lib.antt =====
-- GoBlobStore: a service that stores blobs for tenants, with retentions, a backup, a cache and an index.
--
-- The parts. A tenant's storage (internal/services/business/mainstorage.go) answers the uploads,
-- downloads and deletions of one tenant. It keeps the blobs in a main storage, and copies them to a
-- backup and to a cache, which is a fast one in memory and on a local disk
-- (internal/services/fastcache). The retention manager (internal/services/retentionmanager) deletes
-- blobs at the end of their retention. A main storage or a backup may be a directory of files, on one
-- volume or on several (internal/services/simplefile); the volume manager (internal/services/volume)
-- chooses among them. The migration (internal/services/migration) checks the copies of a tenant and
-- restores its blobs from the backup. All storages answer the same interface
-- (internal/services/interfaces): what MainStorage and Migration are proved to do holds over any
-- storage that keeps the interface's laws. A directory of files acts as such a map where no
-- description has a property named like the id's field, which the laws do not ask for.
--
-- The files.
--   Prelude: names of the libraries, Boolean tests, lists over the native numbers, Go's strings and
--     signed integers.
--   Model: pkg/model, the descriptions and retention entries; errors as values.
--   Search: Go's sort.Search, and the insertion into a slice that both lists build on.
--   Lru: LRUList of internal/services/fastcache/lrulist.go; the children hold its order, the
--     invariant, the oldest entry, the bound of the memory and the entries that stay.
--   FastCache: FastCache of internal/services/fastcache/fastcache.go; the children hold its invariant,
--     the eviction, storing and the filter.
--   Interfaces: internal/services/interfaces as a record of operations on a state; Lawful is what a
--     blob storage promises, a map from the ids that it accepts to blobs.
--   MainStorage: MainStorage of internal/services/business/mainstorage.go: the state and the tasks that
--     its go statements start; Upload, Access and Checking hold the other methods, Copies says when
--     the copies of a blob agree, Steps, Tasks and Runs follow them through the runs of the tasks,
--     Uploading from an upload on, and Reading, Deleting and Verdict hold what the methods answer.
--   Retention: SingleRetentionManager of
--     internal/services/retentionmanager/singleretentionmanager.go.
--   Tests: runs on small inputs.
--   Slices: internal/utils/slicesutils/slicesutils.go.
--   Tenants: MainTenant of internal/services/business/maintenant.go; Lifecycle is the removal of a
--     tenant.
--   Volume: Manager of internal/services/volume/manager.go; Selection is the choice of a volume.
--   Operations: SingleNodeOpsCoor of internal/services/opscoor/opscoor.go; Counting is how many
--     operations an id has.
--   Version: Version of internal/config/version.go; Comparison is their order.
--   SimpleFile: BlobStorage of internal/services/simplefile (simpleblobv1.go, simpleblobv2.go,
--     simplefileblobstorage.go); Files is the disk, Retentions the retentions and the check of
--     internal/utils/utils.go, Cells the map that the files stand for, Validity, Changes and Removal
--     the operations that keep it, Answers what it answers, Listing, Kept and Refinement the storage as
--     that map, Service the storage as one of Interfaces, Checked its check below MainStorage, Faults
--     and Reopening what a failed and a new start leave.
--   MultiVolume: MultiVolumeStorage of internal/services/simplefile/simplefilemultivolume.go; its child
--     composes it with MainStorage.
--   Migration: internal/services/migration, the check and the full restore; Restoring is what a restore
--     brings, Report what the check says of a blob.
--   SimpleTenants: TenantManager of internal/services/simplefile/simplefiletenantmanager.go; Sizes is the
--     size of a tenant after an addition.
--
-- The conventions. A method is a function that gives its result beside the new state. Each call is
-- taken as one step, also where the code holds no lock throughout; a task is one step as well, and
-- the tasks that are pending run in any order. A copy through a pipe drops the description as the
-- target leaves it, while the later copies of an upload share one description in Go. Log entries
-- are left out. Numbers of Go that are never negative (counts, times, lengths) are natural numbers;
-- an int64 is an integer, with its wrap-around written out but for the sums of sizes in memory (the
-- ram size and the size of the cache), which stay below 2^63. A panic is the outcome Error.panic
-- or, for an index out of range, none; a caller of a storage takes the former as an error, and what
-- follows a panic below it is not modelled. The functions of JSON, SHA-256, the Bloom filter, the
-- clock, the generated ids and the files that filepath.Walk visits are parameters. Descriptions
-- carry a list of properties, which is never nil, and a description that a storage keeps shares no
-- properties with its caller's.
--
-- Loops. The loops run by recursion on a list, or on fuel: sort.Search halves a range whose length is
-- fuel enough, the reduction of the memory takes one entry per round, and the eviction of StoreBlob
-- takes two rounds where the cache has room for an entry.
--
-- Not modelled: the services that only call third-party packages (S3, MongoDB, the search engine, the
-- HTTP router), process control, configuration files and logging; the management of running migrations
-- and the concurrent copies of a backup; and the factories, the query tree, the JSON form of a
-- description and the authentication, which stand beside these parts.
pub mod Prelude
pub mod Model
pub mod Search
pub mod Lru
pub mod FastCache
pub mod Interfaces
pub mod MainStorage
pub mod Retention
pub mod Slices
pub mod Tenants
pub mod Volume
pub mod Operations
pub mod Version
pub mod SimpleFile
pub mod MultiVolume
pub mod Migration
pub mod SimpleTenants
mod Tests
