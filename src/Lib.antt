-- ===== src/Lib.antt =====
-- lancelot: a server of the Redis protocol on TiKV. A key holds one object; an object is one encoded
-- entry of the store, under a key made of the user, the database and the client's key, with an entry
-- that orders the objects by their expiry, entries for its elements, and counts kept in shards.
--
-- The parts, from the bottom up, and the files that model them:
-- - Base: byte strings, Go's int64 as ℤ with its wrap-around, big-endian words, decimal numbers, and Go's
--   operators on the bits of a word.
-- - Utils: utils/bytes.go (NextKey, PrevKey, PrefixNext: keys next to a key and after a prefix),
--   utils/int.go (argument parsers, ValidIncrementInt), utils/hash.go (Sum64, GetShard),
--   utils/bitmap/bitmap.go (Bitmap).
-- - Store/Kv: the transaction of the TiKV client library as an interface, with laws for what the
--   commands rely on: reads see own writes, a write concerns its key alone, a lock changes no value.
-- - Store/Txn: store/txn.go. `Txn` is the Go struct's part that commands use; `Exec` is a function of a
--   transaction that may fail and keeps what it has written; Get, Put, Del and DeleteUntil are there.
--   Store/Txn/Frame says, for each way to build an action, which keys it may change.
-- - Store/Scan: Txn.List, with the laws of the client library's iterators: an iterator gives the entries
--   of its range in the order of their keys, as reads see them, until it fails. Store/Merge:
--   store/iter.go and utils/heap.go, several iterators side by side (IterList), for set operations; Seek is
--   about NextUntil.
-- - Command/Object: command/object.go, the encodings of objects and keys. Command/Count: command/count.go.
-- - Command/Access: setTxnObject and getTxnObject of command/object.go, CleanKey and DeleteKey of
--   command/generic.go; Reads and Writes hold their theorems.
-- - Command/Elements: what hashes and sets share. An element is an entry below the UUID of its object
--   (EncodeValue and DecodeValue of command/listb.go); GetOrCreateUUIDObject and
--   DeleteThenCreateUUIDObject of command/hash.go make the object, PutOrDeleteKV of command/object.go
--   writes an element and its count, and GetCountByObject sums the counts. Open, Create and Run say
--   which object a command works on; Counted and Length follow the count.
-- - Command/Hash: command/hash.go, Read (HGET, HMGET, HEXISTS, HSTRLEN, HLEN, HGETALL, HKEYS, HVALS,
--   HRANDFIELD) and Write (HSET, HSETNX, HMSET, HDEL, HINCRBY); Get, Delete and All relate them.
-- - Command/Set: command/set.go, Read (SISMEMBER, SMISMEMBER, SCARD, SMEMBERS, SRANDMEMBER), Write (SADD,
--   SREM, SMOVE), Pop (SPOP), Algebra (inter and diff), Merged (union) and Results (SINTER, SDIFF, SUNION
--   and the commands that store their results).
-- - Command/Strings: command/string.go, with Read (GET, MGET, STRLEN, GETRANGE, GETDEL), Write (APPEND,
--   GETSET, and setString with SETNX, MSET, MSETNX, SETEX, PSETEX), Counter (INCR, DECR, INCRBY, DECRBY), Set (SET and
--   GETEX with their options) and SetRange.
-- - Command/Bits: command/bit.go, BITCOUNT, BITPOS, GETBIT, SETBIT and BITOP; a byte is a number, and its
--   bits are read and assigned one at a time.
-- - Command/Generic: command/generic.go, EXISTS, TOUCH, DEL, UNLINK, RENAME; Expire holds EXPIRE, TTL and
--   their variants, and Options the options of command/zset.go that they take.
-- - Command/Session: command/transaction.go, and the dispatch in server/server.go to the names of
--   ConnHandle (command/command.go) or to TxnHandler. A connection has at most one session, from WATCH or
--   MULTI to EXEC or DISCARD; TxnHandler runs a command in a transaction of its own or queues it;
--   `Client` is how the TiKV client opens and ends transactions. Connection holds QUIT, COMMAND, TRACE and
--   the requests for subscriptions of command/pubsub.go: QUIT closes the connection, SUBSCRIBE and
--   PSUBSCRIBE detach it from the request loop of redcon/redcon.go, and a transaction that is still open
--   is rolled back (Close of command/command.go). `Answer` is all that is written for one request.
-- - Tests: a store in memory that satisfies the laws, and the results at concrete inputs.
--
-- A handler is a function from a transaction to its reply and the transaction after it; an error is a
-- value, and it is also marked in the transaction, as in the Go code. Keys and values are lists of
-- numbers; the fields of fixed width are bounded where a theorem needs it. The loops are over lists or
-- over the entries of an iterator, and TxnHandler's three tries are a number. Only the loop of SUNION
-- has fuel, one turn for each entry of its iterators and one more, which is always enough. A panic of
-- Go code (an index or a slice out of range, `rand.Intn(0)`) is the absence of a result. Random draws, and the
-- UUIDs that `uuid.NewUUID` answers, are parameters. Go's maps of iterators and of objects are lists in
-- the order of insertion.
--
-- Not modelled: logging, metrics and tracing spans; timeouts, the scheduler and the limits of memory; the protocol and network
-- code of redcon; INCRBYFLOAT, HINCRBYFLOAT, KEYS, SCAN, HSCAN and SSCAN (cursors and glob patterns); the
-- commands on lists, sorted sets, streams, JSON, geo, HyperLogLog and scripts; BITFIELD;
-- authentication, so that a connection is one that has been admitted; publishing, and the connections
-- that the PUBLISH manager has taken over (parameters of EXEC and SUBSCRIBE).
pub mod Base
pub mod Utils
pub mod Store
pub mod Command
pub mod Tests
