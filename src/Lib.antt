-- ===== src/Lib.antt =====
-- keyp: a key-value server with Redis commands over LMDB.
--
-- Parts. The server (internal/app) takes a connection's commands to a handler of the service
-- (internal/service), which checks the number of arguments, queues commands between MULTI and EXEC
-- and calls the storage (internal/storage), a client of one LMDB environment. The shared types are in
-- internal/domain.
--
-- Files.
--   Base, Base/*: names, Boolean tests and lists that the other files share.
--   Bytes: byte slices as lists of numbers, with little-endian words.
--   Int64: int64 as its 64-bit pattern, a number below 2 ^ 64, with the wrap-around written out.
--   Decimal: strconv.FormatInt, FormatUint and ParseInt in base 10.
--   Dict: Go maps as association lists.
--   Domain: internal/domain.
--   Lmdb: the LMDB binding, which is not part of the repository: a record of operations, with what its
--     documentation promises as the records IsStore, IsCursor and IsReliable. Lmdb/Memory is an
--     environment in memory that meets them, for the runs in Examples.
--   Storage: Client of client.go, sel.go, and the guards of utils.go. Storage/Selection is about the
--     cache of database handles, Storage/Opening is NewClient and Close, over the record Opener.
--   Storage/Bounds: what the reads make of bytes that no operation wrote.
--   Storage/Lists: what the closures of the list operations do with the bytes of a value. Its
--     children relate them to lists of byte strings: Format is the encoding, then one per operation.
--   Storage/KeyType: checkKeyType and the shape tests.
--   Storage/ListCommands: the list operations, guards and transactions included.
--   Storage/Strings: get.go, set.go, del.go, exists.go, append.go and flushall.go.
--   Storage/Counter: modifyIntegerBy and its callers.
--   Storage/Sets: sadd.go, srem.go, smembers.go and sismember.go.
--   Storage/Expiry: expire.go, ttl.go, persist.go and setTimeout; a timer fires as a step. Calm is about
--     the operations that leave the timers alone, Timers and Reached about every order of operations
--     and timers.
--   Storage/SortedSets, Float64: zadd.go, zrange.go and zcount.go; a score is its 64-bit pattern.
--     Format is the encoding, Order the order of sort.Slice, Scores the map of members to scores.
--   Service: the handler of handler.go and the helpers of utils.go, over the record Persister.
--   Service/Format, Service/Commands: the replies and the command handlers.
--   Service/Dispatch: the tables, Apply, EXEC and DO. Its children: Safety, Safe and Tables are about the
--     commands one by one, Queue, Serves and Replies about how a call ends, Transaction, Modal and
--     Direct about MULTI, EXEC and DISCARD.
--   Service/Stored: the storage with the clock as a Persister, and commands down to the contents of LMDB.
--   App: internal/app: the table of handlers, the pool, and the form of a reply; App/Serving is about
--     connections that come, send commands and go, App/Apart and App/Process/Isolation about those
--     that do so side by side, App/Wire about the bytes that LRANGE sends. App/Process is Start and
--     cmd/keyp/main.go: the process from NewClient to its end, over the sequence of events that
--     redcon reports.
--   Examples, Examples/*: runs on concrete contents.
--
-- State. A storage operation is a function from a client to a client and its answer. A transaction's
-- closure is a function from the contents of the environment; the variables that it captures are part
-- of its result. An error return is Reply, or an Option of an error. A context is its database number
-- and what its Done channel shows at the i-th time that one operation looks.
--
-- Loops. A loop over a count is recursion on the number of rounds that the Go loop makes, 0 for a
-- negative count. FLUSHALL's loop has no bound in the code: it runs on fuel, one more than the entries
-- of the database, which is enough since each round removes one.
--
-- DO may call itself, so it runs on fuel as well; a call that uses up its fuel is `unfinished`, an index
-- out of range or a method of a nil context is `panics`. Where a theorem about a call takes a type
-- `Excuse`, the call is `unfinished` only if that type has an element: with the empty type, it returns.
--
-- Parameters. LMDB and its opening; redcon; the order of a walk over a Go map; strconv.ParseFloat, the
-- Unicode tables behind strings.ToUpper and TrimSpace for names that are not ASCII, and the texts of
-- LMDB's errors. What other connections do while a command waits for its handler is a function.
--
-- Not modelled: the mutexes, since each operation is one step; the sockets and the protocol of redcon,
-- of which the callbacks see the arguments of a command; how the clock goes on, which is a part
-- of the state of the storage: the event `elapsed` of App/Process sets it and lets timers fire, and
-- it stands still within one command.
pub mod Base
pub mod Bytes
pub mod Int64
pub mod Float64
pub mod Decimal
pub mod Dict
pub mod Domain
pub mod Lmdb
pub mod Storage
pub mod Service
pub mod App
pub mod Examples
