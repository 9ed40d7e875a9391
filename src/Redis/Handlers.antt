-- ===== src/Redis/Handlers.antt =====
-- The `On…` handlers of redis/commands.go and redis/finity.go: the command that each builds from a
-- request and hands to `Process`. `Dispatch` of proxy.go finds them by reflection, under "On" and
-- the name of the request; here they are a table.
pub mod Complete
pub mod Replies
use smartproxy.Common.{
  ℕ, Bool, true, false, List, [], ◌∷◌, ◌++◌, ◌||◌, Bytes, codes, String, Map, bytes_eq, find,
  if◌then◌else◌, Option, none, some,
}
use smartproxy.Common.Int.{pos}
use smartproxy.Text.{to_upper}
use smartproxy.Errors.{Error, un_defined_err, reflect_unvalid_err}
use smartproxy.Redis.Format.{nil, millisecond, second}
use smartproxy.Redis.Command.{
  Val, Cmd, new_cmd, set_err, int, string, bool, status, float, string_slice, slice, duration,
}
use smartproxy.Redis.Request
use smartproxy.Redis.Request.{Request}

-- A method value: most of them wrap the whole request, `New…Cmd(req.cmd...)`, in a command of one
-- type, given by that type's zero value.
pub data Handler : Type 0 where
  whole_request : Val → Handler
  on_get on_xadd on_xincrby on_xsetoptions : Handler

abbrev on : String → Val → Bytes × Handler
on s v = (codes s, whole_request v)

first_key_handlers : Map Handler
first_key_handlers =
    on "DEL" (int (pos 0))
    ∷ on "DUMP" (string [])
    ∷ on "EXISTS" (bool false)
    ∷ on "EXPIRE" (bool false)
    ∷ on "EXPIREAT" (bool false)
    ∷ []

expiry_handlers : Map Handler
expiry_handlers =
    on "PERSIST" (bool false)
    ∷ on "PEXPIRE" (bool false)
    ∷ on "PEXPIREAT" (bool false)
    ∷ on "PTTL" (duration millisecond (pos 0))
    ∷ []

restore_handlers : Map Handler
restore_handlers = on "RESTORE" (status []) ∷ []

ttl_handlers : Map Handler
ttl_handlers = on "TTL" (duration second (pos 0)) ∷ on "TYPE" (status []) ∷ []

append_handlers : Map Handler
append_handlers = on "APPEND" (int (pos 0)) ∷ on "BITCOUNT" (int (pos 0)) ∷ []

unfoldable get_handlers : Map Handler
get_handlers =
    on "DECR" (int (pos 0))
    ∷ on "DECRBY" (int (pos 0))
    ∷ (codes "GET", on_get)
    ∷ on "GETBIT" (int (pos 0))
    ∷ on "GETRANGE" (string [])
    ∷ on "GETSET" (string [])
    ∷ on "INCR" (int (pos 0))
    ∷ on "INCRBY" (int (pos 0))
    ∷ on "INCRBYFLOAT" (float 0)
    ∷ []

unfoldable set_string_handlers : Map Handler
set_string_handlers =
    on "SET" (status [])
    ∷ on "PSETEX" (status [])
    ∷ on "SETBIT" (int (pos 0))
    ∷ on "SETNX" (bool false)
    ∷ on "SETEX" (status [])
    ∷ []

unfoldable range_handlers : Map Handler
range_handlers = on "SETRANGE" (int (pos 0)) ∷ on "STRLEN" (int (pos 0)) ∷ []

unfoldable hash_handlers : Map Handler
hash_handlers =
    on "HDEL" (int (pos 0))
    ∷ on "HEXISTS" (bool false)
    ∷ on "HGET" (string [])
    ∷ on "HGETALL" (string_slice [])
    ∷ on "HINCRBY" (int (pos 0))
    ∷ on "HINCRBYFLOAT" (float 0)
    ∷ on "HKEYS" (string_slice [])
    ∷ on "HLEN" (int (pos 0))
    ∷ on "HMGET" (slice nil)
    ∷ on "HMSET" (status [])
    ∷ on "HSET" (bool false)
    ∷ on "HSETNX" (bool false)
    ∷ on "HVALS" (string_slice [])
    ∷ []

unfoldable list_handlers : Map Handler
list_handlers =
    on "LINDEX" (string [])
    ∷ on "LINSERT" (int (pos 0))
    ∷ on "LLEN" (int (pos 0))
    ∷ on "LPOP" (string [])
    ∷ on "LPUSH" (int (pos 0))
    ∷ on "LPUSHX" (int (pos 0))
    ∷ on "LRANGE" (string_slice [])
    ∷ on "LREM" (int (pos 0))
    ∷ on "LSET" (status [])
    ∷ on "LTRIM" (status [])
    ∷ on "RPOP" (string [])
    ∷ on "RPOPLPUSH" (string [])
    ∷ on "RPUSH" (int (pos 0))
    ∷ on "RPUSHX" (int (pos 0))
    ∷ []

unfoldable add_handlers : Map Handler
add_handlers = on "SADD" (int (pos 0)) ∷ on "SCARD" (int (pos 0)) ∷ []

unfoldable member_handlers : Map Handler
member_handlers = on "SISMEMBER" (bool false) ∷ on "SMEMBERS" (string_slice []) ∷ []

unfoldable pop_handlers : Map Handler
pop_handlers = on "SPOP" (string []) ∷ on "SRANDMEMBER" (string []) ∷ on "SREM" (int (pos 0)) ∷ []

unfoldable zadd_handlers : Map Handler
zadd_handlers =
    on "ZADD" (int (pos 0))
    ∷ on "ZCARD" (int (pos 0))
    ∷ on "ZCOUNT" (int (pos 0))
    ∷ on "ZINCRBY" (float 0)
    ∷ []

unfoldable zrange_handlers : Map Handler
zrange_handlers = on "ZRANGE" (string_slice []) ∷ []

unfoldable zscore_range_handlers : Map Handler
zscore_range_handlers =
    on "ZRANGEBYSCORE" (string_slice [])
    ∷ on "ZRANGEBYLEX" (string_slice [])
    ∷ on "ZLEXCOUNT" (int (pos 0))
    ∷ on "ZREMRANGEBYLEX" (int (pos 0))
    ∷ []

unfoldable zrank_handlers : Map Handler
zrank_handlers =
    on "ZRANK" (int (pos 0))
    ∷ on "ZREM" (int (pos 0))
    ∷ on "ZREMRANGEBYRANK" (int (pos 0))
    ∷ on "ZREMRANGEBYSCORE" (int (pos 0))
    ∷ on "ZREVRANGE" (string_slice [])
    ∷ []

unfoldable zrev_handlers : Map Handler
zrev_handlers = on "ZREVRANGEBYSCORE" (string_slice []) ∷ []

unfoldable zscore_handlers : Map Handler
zscore_handlers = on "ZREVRANK" (int (pos 0)) ∷ on "ZSCORE" (float 0) ∷ []

unfoldable finity_handlers : Map Handler
finity_handlers =
    (codes "XADD", on_xadd)
    ∷ (codes "XINCRBY", on_xincrby)
    ∷ (codes "XSETOPTIONS", on_xsetoptions)
    ∷ on "XSCORE" (float 0)
    ∷ on "XCARD" (int (pos 0))
    ∷ on "XREM" (int (pos 0))
    ∷ on "XGETFINITY" (int (pos 0))
    ∷ on "XGETPRUNING" (string [])
    ∷ on "XRANGE" (string_slice [])
    ∷ on "XREVRANGE" (string_slice [])
    ∷ []

unfoldable pub handlers : Map Handler
unfolding first_key_handlers expiry_handlers restore_handlers ttl_handlers append_handlers
    get_handlers set_string_handlers range_handlers hash_handlers list_handlers add_handlers
    member_handlers pop_handlers zadd_handlers zrange_handlers zscore_range_handlers zrank_handlers
    zrev_handlers zscore_handlers finity_handlers
handlers =
    first_key_handlers ++ expiry_handlers ++ restore_handlers ++ ttl_handlers ++ append_handlers
    ++ get_handlers ++ set_string_handlers ++ range_handlers ++ hash_handlers ++ list_handlers
    ++ add_handlers ++ member_handlers ++ pop_handlers ++ zadd_handlers ++ zrange_handlers
    ++ zscore_range_handlers ++ zrank_handlers ++ zrev_handlers ++ zscore_handlers
    ++ finity_handlers

get_key : List Bytes → Bytes
get_key (key ∷ []) = key
get_key _ = []

-- The search for the word ELEMENTS among all the words of a request.
has_elements : List Bytes → Bool
unfolding to_upper bytes_eq
has_elements [] = false
has_elements (v ∷ vs) = bytes_eq (to_upper v) (codes "ELEMENTS") || has_elements vs

pub get_cmd : Request → Cmd
unfolding new_cmd get_key Request.args
get_cmd req = new_cmd (string []) (codes "GET" ∷ get_key (Request.args req) ∷ [])

xadd_cmd : Request → Cmd
unfolding has_elements new_cmd
xadd_cmd req = new_cmd (if has_elements req.cmd then slice nil else int (pos 0)) req.cmd

xincrby_cmd : Request → Cmd
unfolding has_elements new_cmd
xincrby_cmd req = new_cmd (if has_elements req.cmd then slice nil else float 0) req.cmd

xsetoptions_cmd : Request → Cmd
unfolding has_elements new_cmd
xsetoptions_cmd req = new_cmd (if has_elements req.cmd then slice nil else int (pos 0)) req.cmd

-- The command that a method makes of a request.
unfoldable pub call : Handler → Request → Cmd
unfolding new_cmd get_cmd xadd_cmd xincrby_cmd xsetoptions_cmd
call (whole_request v) req = new_cmd v req.cmd
call on_get req = get_cmd req
call on_xadd req = xadd_cmd req
call on_xincrby req = xincrby_cmd req
call on_xsetoptions req = xsetoptions_cmd req

unfoldable on_un_denfined : Request → Cmd
unfolding new_cmd set_err Request.name
on_un_denfined req =
    set_err un_defined_err (new_cmd (string []) ((codes "Meet " ++ Request.name req) ∷ []))

unfoldable pub on_reflect_unvalid : Request → Cmd
unfolding new_cmd set_err Request.name
on_reflect_unvalid req =
    set_err reflect_unvalid_err (new_cmd (string []) ((codes "Meet " ++ Request.name req) ∷ []))
