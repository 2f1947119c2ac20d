-- ===== src/RedisOp/Values.antt =====
-- The operations of src/redis_op.c on single values: hash tables, lists, sorted sets and strings.
pub mod Replies
pub mod Stored
use distributed_storage.Base.{
  ℕ, zero, suc, ◌+◌, Option, none, some, List, [], ◌∷◌, ◌++◌, ℤ, pos, negsuc, minus_one, to_int,
  ltb, if◌then◌else◌, not, length,
}
use distributed_storage.Clib.Exec as Exec
use distributed_storage.Clib.Exec.{Exec, done, fault, nonnull}
use distributed_storage.Clib.Strings.{Bytes, codes, cstring, strncpy, put_prefix, equal, cons_done}
use distributed_storage.Clib.Chars.{atoi}
use distributed_storage.RedisOp.Action.{Action, ◌>>=◌, ◌>>◌, return, lift, call}
use distributed_storage.RedisOp.Hiredis.{Hiredis, Reply, Arg, text, int}
use distributed_storage.RedisOp.Keys.{
  cmd, is_null, is_integer, is_string, is_array, is_status, redis_command, M, rop_test_reply_type,
}

-- `values[i]` is an array of VALUES_ID_SIZE bytes.
abbrev pub values_id_size : ℕ
values_id_size = 1024

-- `max_count = (reply->elements > count) ? count : reply->elements`; the comparison is one of
-- `size_t`, in which a negative count is above every number of elements.
unfoldable pub max_count : ℕ → ℤ → ℕ
max_count elements (pos count) = if ltb count elements then count else elements
max_count elements (negsuc n) = elements

-- `for (i = 0; i < max_count; ++i) strncpy(values[i], reply->element[i]->str, VALUES_ID_SIZE-1)`
unfoldable pub copy_values : ℕ → List (Option Bytes) → List Bytes → Exec (List Bytes)
copy_values zero element values = done values
copy_values (suc n) [] values = fault
copy_values (suc n) (e ∷ element) [] = fault
copy_values (suc n) (e ∷ element) (v ∷ values) = Exec.◌>>=◌ (nonnull e) λ s.
    Exec.◌>>=◌ (strncpy v (cstring s) 1023)
      λ v'. Exec.◌>>=◌ (copy_values n element values) λ rest. done (v' ∷ rest)

module _ (H : Hiredis) (conn : H.Context) where
  unfoldable pub rop_hincrement_one_field : Bytes → Bytes → ℤ → M H conn ℤ
  rop_hincrement_one_field key field num = do
    reply ←
        redis_command H conn (cmd (codes "HINCRBY %s %s %d") (text key ∷ text field ∷ int num ∷ []))
    return (if is_null reply then minus_one else pos 0)

  unfoldable pub rop_list_push : Bytes → Bytes → M H conn ℤ
  rop_list_push key value = do
    reply ← redis_command H conn (cmd (codes "LPUSH %s %s") (text key ∷ text value ∷ []))
    reply ← lift (nonnull reply)
    return (if is_integer reply.type then pos 0 else minus_one)

  unfoldable pub rop_get_list_cnt : Bytes → M H conn ℤ
  rop_get_list_cnt key = do
    reply ← redis_command H conn (cmd (codes "LLEN %s") (text key ∷ []))
    reply ← lift (nonnull reply)
    return (if is_integer reply.type then to_int reply.integer else minus_one)

  unfoldable pub rop_trim_list : Bytes → ℤ → ℤ → M H conn ℤ
  rop_trim_list key begin end = do
    reply ←
        redis_command H conn (cmd (codes "LTRIM %s %d %d") (text key ∷ int begin ∷ int end ∷ []))
    reply ← lift (nonnull reply)
    return (if is_status reply.type then pos 0 else minus_one)

  -- The result, the rows of `values`, and what is stored through `get_num`. The values are copied
  -- whatever the type of the reply is.
  unfoldable pub rop_range_list : Bytes → ℤ → ℤ → List Bytes → M H conn (ℤ × List Bytes × ℕ)
  rop_range_list key from_pos count values = do
    reply ←
        redis_command H conn
          (cmd (codes "LRANGE %s %d %d") (text key ∷ int from_pos ∷ int count ∷ []))
    reply ← lift (nonnull reply)
    let n = max_count (length reply.element) count
    values ← lift (copy_values n reply.element values)
    return (if is_array reply.type then pos 0 else minus_one, values, n)

  unfoldable pub rop_zset_increment : Bytes → Bytes → M H conn ℤ
  rop_zset_increment key member = do
    reply ← redis_command H conn (cmd (codes "ZINCRBY %s 1 %s") (text key ∷ text member ∷ []))
    reply ← lift (nonnull reply)
    str ← lift (nonnull reply.str)
    return (if not (equal str (codes "OK")) then minus_one else pos 0)

  unfoldable pub rop_zset_get_score : Bytes → Bytes → M H conn ℤ
  rop_zset_get_score key member = do
    reply ← redis_command H conn (cmd (codes "ZSCORE %s %s") (text key ∷ text member ∷ []))
    lift (rop_test_reply_type reply)
    reply ← lift (nonnull reply)
    let score = lift (Exec.◌>>=◌ (nonnull reply.str) (λ str. atoi (cstring str)))
    if is_string reply.type then score else return minus_one

  -- The result and the array `str`.
  unfoldable pub rop_get_string : Bytes → Bytes → M H conn (ℤ × Bytes)
  rop_get_string key str = do
    reply ← redis_command H conn (cmd (codes "GET %s") (text key ∷ []))
    lift (rop_test_reply_type reply)
    reply ← lift (nonnull reply)
    let found = lift (
        Exec.◌>>=◌ (nonnull reply.str)
          λ s. Exec.◌>>=◌ (put_prefix str (cstring s) (length s)) λ str'. done (pos 1, str'))
    if is_string reply.type then found else return (minus_one, str)

  unfoldable pub rop_set_string : Bytes → Bytes → M H conn ℤ
  rop_set_string key str = do
    reply ← redis_command H conn (cmd (codes "SET %s %s") (text key ∷ text str ∷ []))
    reply ← lift (nonnull reply)
    s ← lift (nonnull reply.str)
    return (if not (equal s (codes "OK")) then minus_one else pos 1)
