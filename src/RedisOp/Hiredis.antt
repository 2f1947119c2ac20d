-- ===== src/RedisOp/Hiredis.antt =====
-- The client library hiredis and the server behind it, which the program calls and does not hold: an
-- interface over a state of their own. What a command does is left open.
use distributed_storage.Base.{ℕ, Bool, Option, List, ℤ}
use distributed_storage.Clib.Strings.{Bytes}

-- The values of `reply->type`.
pub data ReplyType : Type 0 where
  string array integer nil status error other : ReplyType

-- What the program reads of a reply: `str` may be NULL, and so may be that of an element.
pub record Reply : Type 0 where
  pub type : ReplyType
  pub integer : ℤ
  pub str : Option Bytes
  pub element : List (Option Bytes)

-- An argument of a command's format: %s or %d.
pub data Arg : Type 0 where
  text : Bytes → Arg
  int : ℤ → Arg

-- A command is handed over as a format and its arguments; hiredis puts them together.
pub record Command : Type 0 where
  pub format : Bytes
  pub args : List Arg

-- What `redisGetReply` does to the caller's pointer: it leaves it, or stores one there.
pub data Stored : Type 0 where
  kept : Stored
  set_null : Stored
  set_reply : Stored

-- `Context` is `redisContext *`, not NULL; `World` is the state of the library and of the server.
pub record Hiredis : Type 1 where
  pub World : Type 0
  pub Context : Type 0
  pub connect : Bytes → ℕ → World → Option Context × World
  pub connect_unix : Bytes → World → Option Context × World
  pub connect_timeout : Bytes → ℕ → ℤ → World → Option Context × World
  pub err : Context → World → Bool
  pub free : Context → World → World
  pub command : Context → Command → World → Option Reply × World
  pub append : Context → Command → World → Bool × World
  pub get_reply : Context → World → (Bool × Stored) × World
