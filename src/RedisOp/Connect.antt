-- ===== src/RedisOp/Connect.antt =====
-- The operations of src/redis_op.c that open and close a connection.
pub mod Released
use distributed_storage.Base.{
  ℕ, ◌+◌, Option, none, some, [], ◌++◌, ℤ, leb, Bool, if◌then◌else◌, length,
}
use distributed_storage.Clib.Exec.{Exec, done, fault, nonnull}
use distributed_storage.Clib.Strings.{Bytes, codes, cstring}
use distributed_storage.Clib.Chars.{atoi, uint16}
use distributed_storage.RedisOp.Action.{Action, ◌>>=◌, ◌>>◌, return, lift, call, effect}
use distributed_storage.RedisOp.Hiredis.{Hiredis, Reply}
use distributed_storage.RedisOp.Keys.{cmd, is_null}

-- `char auth_cmd[REDIS_COMMAND_SIZE]`, and `sprintf(auth_cmd, "auth %s", pwd)`.
abbrev pub command_size : ℕ
command_size = 300

unfoldable pub auth_command : Bytes → Exec Bytes
auth_command pwd = if leb command_size (5 + length pwd) then fault else done (codes "auth " ++ pwd)

module _ (H : Hiredis) where
  open H use {World, Context}

  abbrev free_and_null : Context → Action World (Option Context)
  free_and_null conn = do effect (H.free conn); return none

  -- The two tests behind every attempt: no context, and a context in error, which is released.
  unfoldable pub checked : Option Context → Action World (Option Context)
  checked none w = return none w
  checked (some conn) w = if H.err conn w then free_and_null conn w else return (some conn) w

  -- `redisCommand(conn, auth_cmd)`; with no reply the context is dropped, and not released.
  unfoldable pub authenticate : Bytes → Context → Action World (Option Context)
  authenticate pwd conn = do
    auth_cmd ← lift (auth_command pwd)
    reply ← call (H.command conn (cmd auth_cmd []))
    return (if is_null reply then none else some conn)

  abbrev and_authenticate : Bytes → Option Context → Action World (Option Context)
  and_authenticate pwd none = return none
  and_authenticate pwd (some conn) = authenticate pwd conn

  unfoldable pub rop_connectdb_nopwd : Bytes → Bytes → Action World (Option Context)
  rop_connectdb_nopwd ip_str port_str = do
    port ← lift (atoi (cstring port_str))
    conn ← call (H.connect ip_str (uint16 port))
    checked conn

  unfoldable pub rop_connectdb : Bytes → Bytes → Bytes → Action World (Option Context)
  rop_connectdb ip_str port_str pwd = do
    port ← lift (atoi (cstring port_str))
    conn ← call (H.connect ip_str (uint16 port))
    conn ← checked conn
    and_authenticate pwd conn

  unfoldable pub rop_connectdb_unix : Bytes → Bytes → Action World (Option Context)
  rop_connectdb_unix sock_path pwd = do
    conn ← call (H.connect_unix sock_path)
    conn ← checked conn
    and_authenticate pwd conn

  unfoldable pub rop_connectdb_timeout : Bytes → Bytes → ℤ → Action World (Option Context)
  rop_connectdb_timeout ip_str port_str timeout = do
    port ← lift (atoi (cstring port_str))
    conn ← call (H.connect_timeout ip_str (uint16 port) timeout)
    checked conn

  unfoldable pub rop_disconnect : Option Context → Action World (Unit {0})
  rop_disconnect none = return tt
  rop_disconnect (some conn) = effect (H.free conn)
