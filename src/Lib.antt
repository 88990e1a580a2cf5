-- ===== src/Lib.antt =====
-- portbase is a base for Go programs: modules with a life cycle and dependencies, a database of records,
-- a configuration, an api with permissions, updates of resources, and the formats and containers that
-- these are stored with.
--
-- The parts, bottom up, each in a file with a folder of its children:
-- - Prelude: Boolean tests, lists, maps, signed integers, bytes, and what a call does. A Go call that can
--   panic or return an error is a `Result`: `panic`, `err`, or `ok` with its value. A byte slice and a string
--   are lists of numbers, a slice out of range is a panic, and an int, an int64 or a uint64 has its
--   wrap-around written out where the code computes with it.
-- - Varint (formats/varint): `pack8` to `pack64` are Pack8 to Pack64, `unpack8` to `unpack64` their inverses,
--   and `prepend_length` and `get_next_block` the helpers. PutUvarint and Uvarint of encoding/binary are
--   written out, with the size of the buffer as the bound of their loops.
-- - Container (container/container.go): the record has the fields of the Go struct, and each method is a
--   function of its name that returns the new state. `content` is the abstract view, all bytes that are held,
--   `IsValid` the well-formedness.
-- - Dsd (formats/dsd): `load`, `dump` and their parts, and the compressed form. The serializers (JSON, YAML,
--   CBOR, MsgPack, GenCode) and gzip are the parameter `Codecs`; that each reads back what it packed is
--   the hypothesis `Laws`. The default format is JSON, as format.go sets it.
-- - Record (database/record): Record/Meta is meta.go with the clock as an argument, Record/GenCode its binary
--   form (meta-gencode.go), Record/Key is key.go and the state of base.go, Record/Wrapper is wrapper.go,
--   which uses Varint, Container, Dsd and the metadata.
-- - Modules (modules): the `System` is the store that the pointers between modules lead to, a module being
--   known by a number. Modules has the checks readyToPrep, readyToStart and readyToStop, Modules/Status what
--   prep, start, stop, stopAllTasks, setFailure, Resolve and checkIfStopComplete write, Modules/Depend the
--   links (initDependencies) and buildEnabledTree. Modules/Steps has one step for each visit of a module
--   by prepareModules, startModules and stopModules, for each end of a control function, for each change
--   of the counts of work, for the tests and for the close of checkIfStopComplete, and for each outside change; steps come
--   in any order, as the goroutines do. `depth` bounds the recursion of markDependencies by one more than
--   the number of modules, as each nested call follows a newly set mark. Modules/Safety and its children
--   have the invariant and the links, Modules/Starting the channel of startComplete, Modules/Needed and its
--   children what buildEnabledTree marks, and its runs without a bound.
-- - Updater (updater/resource.go): AddVersion, selectVersion, Blacklist and Purge on the versions of a
--   resource, each known by the address of its record. Semantic versions (go-version) are the parameter
--   `SemVers`, sort.Sort the parameter `sort`, with `SortLaws` as their documented behaviour.
-- - Api (api/authentication.go): `authenticate_request` and its parts, from the permission that a handler
--   asks for to the token that it gets, over the state of sessions, keys and settings. The external
--   authenticator, the new session keys and the clock are parts of that state. Api/Keys is updateAPIKeys.
-- - Config (config): options and the validation of values; Config/Changes has ReplaceConfig,
--   SetConfigOption, their forms for the defaults, and Register, Config/Getters the functions that GetAsString and
--   its like return. The flag that they hold is the number of changes signalled before it. In a history of
--   changes no registered key is registered again.
-- - Database (database): `Storage` is the interface that a storage fills, `IsMap` what a client relies on, and
--   Database/HashMap the storage of storage/hashmap. Database/Controller is controller.go with its hooks and
--   subscriptions, Database/Interface the operations of interface.go on one record, with the permissions
--   of the caller. The cache of an interface (gcache) is the parameter `Cache`. Database/Query is the matching
--   part of query, with the query executor of the hash map; how its receiver answers each send is an argument.
--
-- Not modelled: locks, as a method under its lock is one step, and so are the reads of checkIfStopComplete with
-- its SetToIf; logging, notifications, contexts and timeouts, but for that of a query; the loops of the module manager around the visits; the file system and the network, of which
-- Purge says what it removes; records that are changed by another holder of the pointer; the delayed
-- writes of an interface, the text form of queries, and the storages over other stores; the endpoints of
-- the api and the other packages.
pub mod Api
pub mod Config
pub mod Container
pub mod Database
pub mod Dsd
pub mod Modules
pub mod Prelude
pub mod Record
pub mod Updater
pub mod Varint
