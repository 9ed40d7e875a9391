-- ===== src/Precheck/Tables.antt =====
-- The command tables of precheck.go.
use smartproxy.Common.{ℕ, List, [], ◌∷◌, Bytes, codes, String, Map, Option, none, some}

-- The bounds on the number of words of a request, the command itself included. -1 in the source,
-- for no bound, is `none`.
pub record Rule : Type 0 where
  pub min_count : ℕ
  pub max_count : Option ℕ

abbrev unbounded : Option ℕ
unbounded = none

abbrev at_most : ℕ → Option ℕ
at_most n = some n

abbrev rule : String → ℕ → Option ℕ → Bytes × Rule
rule s least most = (codes s, record { min_count = least; max_count = most })

unfoldable pub req_rules : Map Rule
req_rules =
    rule "PROXY" 2 (at_most 5)
    ∷ rule "DEL" 2 (at_most 2001)
    ∷ rule "TYPE" 2 (at_most 2)
    ∷ rule "EXISTS" 2 (at_most 2)
    ∷ rule "EXPIRE" 3 (at_most 3)
    ∷ rule "EXPIREAT" 3 (at_most 3)
    ∷ rule "TTL" 2 (at_most 2)
    ∷ rule "PTTL" 2 (at_most 2)
    ∷ rule "PERSIST" 2 (at_most 2)
    ∷ rule "PEXPIRE" 3 (at_most 3)
    ∷ rule "PEXPIREAT" 3 (at_most 3)
    ∷ rule "RENAME" 3 (at_most 3)
    ∷ rule "RENAMENX" 3 (at_most 3)
    ∷ rule "DUMP" 2 (at_most 2)
    ∷ rule "RESTORE" 4 (at_most 4)
    ∷ rule "SETBIT" 4 (at_most 4)
    ∷ rule "BITCOUNT" 2 (at_most 2)
    ∷ rule "GETBIT" 3 (at_most 3)
    ∷ rule "GET" 2 (at_most 2)
    ∷ rule "MGET" 2 (at_most 2001)
    ∷ rule "GETRANGE" 4 (at_most 4)
    ∷ rule "GETSET" 3 (at_most 3)
    ∷ rule "SET" 3 (at_most 6)
    ∷ rule "MSET" 3 (at_most 4001)
    ∷ rule "SETEX" 4 (at_most 4)
    ∷ rule "SETNX" 3 (at_most 3)
    ∷ rule "PSETEX" 4 (at_most 4)
    ∷ rule "SETRANGE" 4 (at_most 4)
    ∷ rule "STRLEN" 2 (at_most 2)
    ∷ rule "INCR" 2 (at_most 2)
    ∷ rule "DECR" 2 (at_most 2)
    ∷ rule "INCRBY" 3 (at_most 3)
    ∷ rule "DECRBY" 3 (at_most 3)
    ∷ rule "INCRBYFLOAT" 3 (at_most 3)
    ∷ rule "APPEND" 3 (at_most 3)
    ∷ rule "HGET" 3 (at_most 3)
    ∷ rule "HSET" 4 (at_most 4)
    ∷ rule "HMGET" 3 unbounded
    ∷ rule "HMSET" 4 unbounded
    ∷ rule "HGETALL" 2 (at_most 2)
    ∷ rule "HLEN" 2 (at_most 2)
    ∷ rule "HDEL" 3 unbounded
    ∷ rule "HEXISTS" 3 (at_most 3)
    ∷ rule "HINCRBY" 4 (at_most 4)
    ∷ rule "HINCRBYFLOAT" 4 (at_most 4)
    ∷ rule "HKEYS" 2 (at_most 2)
    ∷ rule "HSETNX" 4 (at_most 4)
    ∷ rule "HVALS" 2 (at_most 2)
    ∷ rule "SADD" 3 unbounded
    ∷ rule "SCARD" 2 (at_most 2)
    ∷ rule "SISMEMBER" 3 (at_most 3)
    ∷ rule "SMEMBERS" 2 (at_most 2)
    ∷ rule "SREM" 3 unbounded
    ∷ rule "SPOP" 2 (at_most 2)
    ∷ rule "SRANDMEMBER" 2 (at_most 3)
    ∷ rule "LPUSH" 3 unbounded
    ∷ rule "RPUSH" 3 unbounded
    ∷ rule "LPOP" 2 (at_most 2)
    ∷ rule "RPOP" 2 (at_most 2)
    ∷ rule "LINDEX" 3 (at_most 3)
    ∷ rule "LINSERT" 5 (at_most 5)
    ∷ rule "LTRIM" 4 (at_most 4)
    ∷ rule "LRANGE" 4 (at_most 4)
    ∷ rule "LLEN" 2 (at_most 2)
    ∷ rule "LPUSHX" 3 (at_most 3)
    ∷ rule "RPUSHX" 3 (at_most 3)
    ∷ rule "LSET" 4 (at_most 4)
    ∷ rule "LREM" 4 (at_most 4)
    ∷ rule "ZADD" 4 unbounded
    ∷ rule "ZCARD" 2 (at_most 2)
    ∷ rule "ZCOUNT" 4 (at_most 4)
    ∷ rule "ZRANK" 3 (at_most 3)
    ∷ rule "ZREVRANK" 3 (at_most 3)
    ∷ rule "ZRANGE" 4 (at_most 5)
    ∷ rule "ZREVRANGE" 4 (at_most 5)
    ∷ rule "ZRANGEBYSCORE" 4 unbounded
    ∷ rule "ZREVRANGEBYSCORE" 4 unbounded
    ∷ rule "ZREM" 3 unbounded
    ∷ rule "ZREMRANGEBYRANK" 4 (at_most 4)
    ∷ rule "ZREMRANGEBYSCORE" 4 (at_most 4)
    ∷ rule "ZINCRBY" 4 (at_most 4)
    ∷ rule "ZSCORE" 3 (at_most 3)
    ∷ rule "ZRANGEBYLEX" 4 (at_most 7)
    ∷ rule "ZLEXCOUNT" 4 (at_most 4)
    ∷ rule "ZREMRANGEBYLEX" 4 (at_most 4)
    ∷ rule "XADD" 4 unbounded
    ∷ rule "XINCRBY" 4 (at_most 9)
    ∷ rule "XRANGE" 4 (at_most 5)
    ∷ rule "XREVRANGE" 4 (at_most 5)
    ∷ rule "XSCORE" 3 (at_most 3)
    ∷ rule "XREM" 3 unbounded
    ∷ rule "XCARD" 2 (at_most 2)
    ∷ rule "XSETOPTIONS" 3 (at_most 7)
    ∷ rule "XGETFINITY" 2 (at_most 2)
    ∷ rule "XGETPRUNING" 2 (at_most 2)
    ∷ []

unfoldable pub spec_list : List Bytes
spec_list =
    codes "PROXY"
    ∷ codes "RENAME"
    ∷ codes "RENAMENX"
    ∷ codes "MGET"
    ∷ codes "MSET"
    ∷ codes "DEL"
    ∷ codes "MSETNX"
    ∷ codes "RPOPLPUSH"
    ∷ codes "SDIFF"
    ∷ codes "SDIFFSTORE"
    ∷ codes "SINTER"
    ∷ codes "SINTERSTORE"
    ∷ codes "SMOVE"
    ∷ codes "ZUNIONSTORE"
    ∷ codes "ZINTERSTORE"
    ∷ []

unfoldable pub black_list : List Bytes
black_list =
    codes "BGREWRITEAOF"
    ∷ codes "BGSAVE"
    ∷ codes "BITOP"
    ∷ codes "BLPOP"
    ∷ codes "BRPOP"
    ∷ codes "BRPOPLPUSH"
    ∷ codes "CLIENT"
    ∷ codes "CONFIG"
    ∷ codes "DBSIZE"
    ∷ codes "DEBUG"
    ∷ codes "DISCARD"
    ∷ codes "EXEC"
    ∷ codes "FLUSHALL"
    ∷ codes "FLUSHDB"
    ∷ codes "KEYS"
    ∷ codes "LASTSAVE"
    ∷ codes "MONITOR"
    ∷ codes "MOVE"
    ∷ codes "MSETNX"
    ∷ codes "MULTI"
    ∷ codes "OBJECT"
    ∷ codes "PSUBSCRIBE"
    ∷ codes "PUBLISH"
    ∷ codes "PUNSUBSCRIBE"
    ∷ codes "RANDOMKEY"
    ∷ codes "RENAME"
    ∷ codes "RENAMENX"
    ∷ codes "SAVE"
    ∷ codes "SCAN"
    ∷ codes "SSCAN"
    ∷ codes "HSCAN"
    ∷ codes "ZSCAN"
    ∷ codes "SCRIPT"
    ∷ codes "SHUTDOWN"
    ∷ codes "SLAVEOF"
    ∷ codes "SLOWLOG"
    ∷ codes "SORT"
    ∷ codes "SUBSCRIBE"
    ∷ codes "SYNC"
    ∷ codes "SDIFF"
    ∷ codes "SDIFFSTORE"
    ∷ codes "SINTER"
    ∷ codes "SINTERSTORE"
    ∷ codes "SMOVE"
    ∷ codes "SUNION"
    ∷ codes "SUNIONSTORE"
    ∷ codes "TIME"
    ∷ codes "UNSUBSCRIBE"
    ∷ codes "UNWATCH"
    ∷ codes "WATCH"
    ∷ codes "ZUNIONSTORE"
    ∷ codes "ZINTERSTORE"
    ∷ []
