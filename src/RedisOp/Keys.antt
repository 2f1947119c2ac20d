-- ===== src/RedisOp/Keys.antt =====
-- The operations of src/redis_op.c on databases and keys. Messages to the log and to the terminal
-- are left out; so is the release of a reply, which changes nothing that the program reads again.
use distributed_storage.Base.{
  ℕ, Option, none, some, List, [], ◌∷◌, ℤ, pos, minus_one, ltb_ℤ, eq_ℤ, Bool, true, false,
  if◌then◌else◌,
}
use distributed_storage.Clib.Exec.{nonnull, Exec, done, fault}
use distributed_storage.Clib.Strings.{Bytes, codes}
use distributed_storage.RedisOp.Action.{Action, ◌>>=◌, return, lift, call}
use distributed_storage.RedisOp.Hiredis.{Hiredis, Reply, ReplyType, Arg, text, int, Command}

abbrev pub is_integer : ReplyType → Bool
is_integer ReplyType.integer = true
is_integer _ = false

abbrev pub is_string : ReplyType → Bool
is_string ReplyType.string = true
is_string _ = false

abbrev pub is_array : ReplyType → Bool
is_array ReplyType.array = true
is_array _ = false

abbrev pub is_status : ReplyType → Bool
is_status ReplyType.status = true
is_status _ = false

abbrev pub cmd : Bytes → List Arg → Command
cmd format args = record { format = format; args = args }

abbrev pub is_null {ℓ} : {A : Type ℓ} → Option A → Bool
is_null none = true
is_null (some _) = false

-- `rop_test_reply_type` looks at the type, and writes a line to the log for each.
unfoldable pub rop_test_reply_type : Option Reply → Exec (Unit {0})
rop_test_reply_type none = fault
rop_test_reply_type (some reply) = done tt

module _ (H : Hiredis) (conn : H.Context) where
  abbrev pub M {ℓ} : Type ℓ → Type ℓ
  M A = Action H.World A

  abbrev pub redis_command : Command → M (Option Reply)
  redis_command c = call (H.command conn c)

  unfoldable pub rop_selectdatabase : ℕ → M ℤ
  rop_selectdatabase db_no = do
    reply ← redis_command (cmd (codes "select %d") (int (pos db_no) ∷ []))
    return (if is_null reply then minus_one else pos 0)

  unfoldable pub rop_flush_database : M ℤ
  rop_flush_database = do
    reply ← redis_command (cmd (codes "FLUSHDB") [])
    return (if is_null reply then minus_one else pos 0)

  unfoldable pub rop_is_key_exist : Bytes → M ℤ
  rop_is_key_exist key = do
    reply ← redis_command (cmd (codes "EXISTS %s") (text key ∷ []))
    reply ← lift (nonnull reply)
    return (
        if is_integer reply.type
        then if eq_ℤ reply.integer (pos 1) then pos 1 else pos 0
        else minus_one)

  unfoldable pub rop_del_key : Bytes → M ℤ
  rop_del_key key = do
    reply ← redis_command (cmd (codes "DEL %s") (text key ∷ []))
    reply ← lift (nonnull reply)
    return (
        if is_integer reply.type
        then if ltb_ℤ (pos 0) reply.integer then pos 0 else minus_one
        else minus_one)

  -- The wrong type is noted, and the integer is looked at all the same.
  unfoldable pub rop_set_key_lifecycle : Bytes → ℤ → M ℤ
  rop_set_key_lifecycle key delete_time = do
    reply ← redis_command (cmd (codes "EXPIREAT %s %d") (text key ∷ int delete_time ∷ []))
    reply ← lift (nonnull reply)
    return (if eq_ℤ reply.integer (pos 1) then pos 0 else minus_one)

  -- The keys that are printed.
  unfoldable pub rop_show_keys : Bytes → M (List (Option Bytes))
  rop_show_keys pattern' = do
    reply ← redis_command (cmd (codes "keys %s") (text pattern' ∷ []))
    reply ← lift (nonnull reply)
    return (if is_array reply.type then reply.element else [])

  -- The command is a format of its own.
  unfoldable pub rop_redis_command : Bytes → M ℤ
  rop_redis_command command = do
    reply ← redis_command (cmd command [])
    return (if is_null reply then minus_one else pos 0)
