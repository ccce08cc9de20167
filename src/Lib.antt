-- ===== src/Lib.antt =====
-- Ant-Cache: a cache server with expiring keys, a snapshot file and a command log.
--
-- The parts and how they interact. A connection's lines are split into words and processed one by
-- one against the one cache that all connections share; the cache keeps a map of items and a heap
-- of those that expire, sends the changes to the command log, and is saved to and loaded from a
-- snapshot file. A pool of goroutines serves the connections of the pooled server.
--
-- - Base (with Base/Tests, Lists, Int, Strings, Maps): Boolean tests, lists with native lengths,
--   signed 64-bit integers that wrap around, byte strings, and Go maps as association lists in the
--   order of insertion, one of the orders that a range over a Go map may take.
-- - Item, Heap: the CacheItem and ExpirationHeap types of cache/cache.go. A pointer to an item is a
--   number, and a memory gives the item at each, so that the map and the heap share items, and
--   their `index` fields change under both. Heap writes out Push, Pop and Remove of the standard
--   library's container/heap over the methods of ExpirationHeap. Heap/Order, Heap/Sinking, Heap/Rearrange and
--   Heap/Frame hold what the sift-up and sift-down loops keep; Heap/Valid the well-formedness;
--   Heap/Insertion and Heap/Removal the three operations, Heap/Withdrawal the method Remove.
-- - Cache: the methods New, Set, SetNX, Get, GetMultiple, Delete, Cleanup, Keys and FlushAll of
--   cache/cache.go. The mutex makes a method one step; the time is an argument, taken as one
--   instant in a step. Cache/Valid, Deletion and Cleaning are about the well-formedness of the
--   cache; Cache/Reads about what Get returns after each method; Cache/Stale about overwritten keys;
--   Cache/Listing is GetAllKeys. Cache/Batch is BatchExecute and OptimizedSet with the pool of items:
--   Batch/Pooled, Recycling and Release are about the pool, Batch/View is the specification on a plain
--   map, and Batch/Setting, Entering and Refinement show that the code meets it.
-- - Persistence: Command and LogCommand of cache/persistence.go, with the channel's capacity.
-- - Strings: the functions of Go's strings, strconv and bufio packages that the command log uses.
-- - Log: the command log of cache/persistence.go: its lines in Log, its files (processCommands,
--   writeCommandToAcl, rotateAclFile) in Log/Files, LoadAcl in Log/Replay and compactAclFiles in
--   Log/Compact. Log/Lines and Log/Values are about a command written and read, Log/Writing about
--   what the files hold, Log/Recovery and Log/Durability about a cache filled from the log,
--   Log/Restart and Log/Restored about calls, the log and a new cache together, Log/Overlay about a log
--   that is replayed over a snapshot, and Log/Merging about the commands that compaction keeps.
-- - Atd: SaveAtd and LoadAtd of cache/persistence.go on the bytes before gzip: Atd/Bytes the
--   big-endian integers, Atd/Values the values, Atd the items, the header and the two loops.
-- - Utils/Ttl, Utils/Quotes: ParseTTL and ParseCommandWithQuotes of utils/command_parser.go.
-- - Auth: auth/auth.go on the text of the password file: HasPassword, SetPassword and
--   VerifyPassword in Auth, SetupPassword and Authenticate in Auth/Prompts, the hexadecimal digits
--   in Auth/Hex; Auth/Stored is about a password that is stored and checked.
-- - Cli: cli/cli.go: StartInteractiveCLI and handleCacheCommand in Cli, handleAuthCommand in
--   Cli/Passwords; Cli/Agreement compares the client with the server, Cli/Changes is about changes
--   of the password.
-- - Config: config/config.go; Config/Defaults is about loading and saving.
-- - Runs: the calls on the one cache, one step each, in any order; BatchExecute and OptimizedSet, which
--   nothing in the repository calls, where no item of the pool is in use.
-- - Server: processCommandDirect, handleAuth and parseTTLFromParts of
--   tcpserver/single_goroutine_server.go, with the commands in Server/Commands and the loop of a
--   connection in Server/Session; Server/Pooled is the same code in
--   tcpserver/pooled_goroutine_server.go. Server/Guarded is about connections without the password.
--   Server/Accepting is the SingleGoroutineServer with all its connections as a state machine: its
--   events are what the accept loop, a connection's goroutine or Stop does next, in any order;
--   Accepting/Counting, Earning and Closed are about its counters, about who is authenticated and
--   about what strangers can change. Server/Pooling is the PooledGoroutineServer in the same way, with
--   its channel and its workers; an accept counts the connection, and then the channel takes its task
--   or SubmitTask runs out of time. Pooling/Places, Accounts and Serving are about where each connection is,
--   Pooling/Closed about what strangers can change.
-- - Pool: the GoroutinePool of tcpserver/pooled_goroutine_server.go: its sizes and counters.
--   Pool/Scaling is about its bounds, Pool/Checking about what checkAndScale leaves alone.
-- - Start: NewWithPersistence of cache/cache.go and main and handleQueryConfig of main.go, up to where
--   the client or a server runs; a ticker that panics in a goroutine of the persistence manager is
--   taken as a panic of the start, and an unknown server type as fatal. Start/Closing is Close with Stop of cache/persistence.go.
--   Start/Loading and Opening, Guarded, Intervals and Restart are about what a
--   start gives, what the configured password protects, the two intervals, and a cache that is closed and opened again.
-- - Workers: the worker pool of tcpserver/worker_pool.go as a state machine; SubmitTask gives out a
--   number, a uint64, in one step, and its task enters the queue or is rejected in another.
--   Workers/Places and Accounts are about where its tasks are.
-- - Tests: concrete data, and each theorem applied to it.
--
-- Bounds. `none` stands for a run-time panic where the result is an Option of a state. Loops that
-- are not structural run on fuel: a sift loop on the size of the heap, Cleanup on the size of the
-- heap, since each round takes an item off, and LoadAtd on the length of the file, since each round
-- takes a byte. strings.Fields runs on the length of its text and the format %d on the number, for
-- the same reason. The counters of the servers are uint64 and wrap around at 2 ^ 64; those of the
-- goroutine pool are natural numbers. A line of the log has 65535 bytes at most, the limit of a bufio.Scanner.
--
-- Parameters. The file with CompressValue and DecompressValue is not in the repository: they are a
-- record `Compression`, and the theorems on stored values ask that what was stored is given back.
-- VerifyPassword, json.Marshal and the format %v are fields of the server. The file system's
-- answers, pbkdf2.Key, the random salt, what is typed at a prompt, the JSON decoder and
-- time.ParseDuration are arguments.
--
-- Not modelled: sockets, gzip, signals, the timers of periodicAtd and periodicAcl, log messages, the
-- cleaner, whose package is not in the repository, and the pools of buffers and of string slices.
-- sync.Pool hands out an item that is an argument: any item of the pool or a new one. After Stop a
-- state says that its channel is closed; what a sender meets there is not modelled.
-- The order in which compactAclFiles writes the merged commands is that of the table, where Go
-- leaves it open.
pub mod Base
pub mod Item
pub mod Heap
pub mod Persistence
pub mod Cache
pub mod Atd
pub mod Utils
pub mod Strings
pub mod Log
pub mod Auth
pub mod Server
pub mod Cli
pub mod Runs
pub mod Config
pub mod Workers
pub mod Pool
pub mod Start
pub mod Tests
