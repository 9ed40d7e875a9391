-- ===== src/Lib.antt =====
-- smartproxy is a proxy in front of a Redis cluster. A client speaks the Redis protocol to it; the
-- proxy checks each request, answers some by itself, splits others over many keys, and passes the
-- rest to the cluster. The files here model its own code, file by file:
--
--   Wire        parser.go: requests off a connection (`parseReq`) and onto it (`appendArgs`).
--   Precheck    precheck.go: `preCheckCommand` and its tables, and the expiry of blacked keys.
--   Config      config.go, const.go: the start of the configuration, and its saving.
--   Server      proxy.go: the server's state, `Dispatch`, the expiry of idle sessions, and the pools of
--               the nodes (Server.Backend).
--   ProxyCmd    proxycmd.go: the PROXY commands, which read and write the server's state.
--   Special     special.go: MGET, MSET and DEL, whose goroutines each work on one key.
--   Pool        the interleavings of such goroutines under a channel of tokens.
--   Session     session.go: `HandleConn`, which composes all of them, round by round; Session.Relay is
--               the whole way of a reply from a node to a client.
--   Redis       redis/request.go, redis/command.go, redis/commands.go, redis/finity.go: requests,
--               commands, their replies, and the handlers that make a command of a request.
--   Redis.Reply    redis/parser.go and `parseReply` of redis/command.go: the replies of a node.
--   Redis.Slots    redis/crc16.go and `hashSlot` of redis/cluster.go: the slot of a key.
--   Redis.Topology redis/cluster.go: the state of the cluster client and its table of the slots.
--   Redis.Cluster  redis/cluster.go: the clients of the nodes, and `process`, which follows
--                  redirections.
--   Redis.Node     redis/redis.go: the client of one node, and its retries.
--   Redis.Options  the options of redis/redis.go and redis/cluster.go, with their defaults.
--   Redis.Pipeline redis/pipeline.go: the pipeline of ASKING and a command.
--   Redis.ConnPool redis/pool.go: the pool of the connections to a node, `connPool`, over
--               Redis.ConnList, the `connList` of the same file; Redis.SinglePool, `singleConnPool`.
--   Stats       statsd.go, statsd/: the counter of the requests and the lines sent to statsd.
--   Errors      redis/error.go and the error values of precheck.go.
--   Text        what the code uses of strconv, strings and fmt, and util/itoa.go (Text.Cached).
--   Common      shared types, tests and lemmas.
--   Examples    the theorems at concrete inputs.
--
-- A byte is a number, a string a list of bytes, a Go map an association list without repeated
-- keys, and an `int64` or `int` an integer: `strconv` refuses what does not fit 64 bits, and the
-- counters of requests and of deleted keys are taken not to reach that bound. A clock is an
-- argument, in the unit that the code reads it in. A Go function that can panic returns a result
-- with a case for it, and `log.Fatal` is the result `fatal`. State that goroutines share is passed
-- on explicitly, one step at a time.
--
-- `Wire.Reader` is a buffered reader: the bytes that are still to come and the error behind them.
-- Its buffer of 4096 bytes is kept, since `ReadSlice` fails on a longer line. `max_cap` is the
-- largest capacity that `make` accepts. A session's `Env` holds what a round takes from outside:
-- the clock, whether writes succeed, the answer of the cluster (`process`) and the printing of
-- floats; for MGET, MSET and DEL also the schedule of their goroutines (`schedule`) and what the
-- cluster answers to each (`answers`). The loop of `HandleConn` ends only with its client, so
-- `serve` runs one round for each `Env` of a list, and the theorems speak of every list. The loops
-- that end by themselves are structural recursion. `parse_nested` has fuel for the nesting of
-- lists, and `parse_reply` gives it one more than the bytes there are, since every level takes a
-- byte. `get_client` has fuel for `getClient` and `randomClient` calling each other, which they do
-- only for an empty address: where no known address is empty, fuel 1 is enough.
--
-- In Redis.Reply `sprintf` is `fmt.Sprintf` of a format alone, `parse_float` is
-- `strconv.ParseFloat`, and `max_cap` stands for the largest capacity of every type of element; `max_make`
-- bounds the bytes of one text, which matters where they do not come. In
-- Redis.Cluster the client of a node is its address; `Nodes` holds what the nodes answer, the random
-- draws, and `others`, what the other goroutines do to the shared state between two steps, so that
-- the reload of the table in the background is one of them. `probe` and `answer` are `none` where
-- `parseReply` panics on what the node sent. The log of a `World` is not in the
-- code: it lists what was sent. In Redis.Node a `Try` holds what an attempt meets, and an `Act` is
-- not in the code: it notes that a connection was taken, what it met, and how it was handed back.
--
-- A goroutine of MGET, MSET or DEL moves by one access to what it shares, and a schedule is the
-- list of who moves next, so a theorem about every schedule is one about every interleaving. What
-- the cluster answers is given for each goroutine. A schedule that ends before `wg.Wait()` does
-- leaves the connection `blocked`.
--
-- The start of `HandleConn` runs in a goroutine for each connection, and nothing guards the map of the
-- sessions: in Session.Doors the test of its length and the insertion are two steps, and `pick` chooses
-- which goroutine inserts next. A `Conn` of Session is one that was let in.
--
-- A goroutine that uses a pool moves likewise by one access to what it shares: an atomic operation on
-- the counter, an operation on the list under its lock, or one on the channel. `Choice` is what it wants
-- and what it meets, so that dialling, the limit of its rate and the clock are parameters. The counter
-- is an `int32` and not wrapped here, since it stays within the size of the pool and the number of the
-- goroutines.
--
-- In Redis.Pipeline and Session.Links a `Link` is what an attempt meets on its connection, and
-- `nodes_over` puts the clients of the nodes under the cluster client. `qps_send` runs the rounds it is
-- given, as the loop of `QpsSend` may not end; `fprintf` is `fmt.Fprintf` of a format with one `%d`.
--
-- The calls of `ini` files, of the log and of the network are arguments. The connections to the
-- nodes themselves (redis/conn.go), the reaper of redis/cluster.go, the statistics of the Go runtime
-- (`StatsdMemStats`) and the start of the program (cmd/main.go) are not modelled, nor are the copies of
-- other libraries under redis/ or the parts of the Redis client that the proxy never calls.
pub mod Common
pub mod Text
pub mod Errors
pub mod Wire
pub mod Redis
pub mod Precheck
pub mod Config
pub mod Server
pub mod ProxyCmd
pub mod Pool
pub mod Special
pub mod Session
pub mod Stats
pub mod Examples
