-- ===== src/Usefull/WriteRedis.antt =====
-- `write_redis` of src/usefull.c: the value that describes an uploaded file, and its two commands.
-- `malloc` is given as what it returns, `time`, `localtime` and `strftime` as the array that they fill.
pub mod Value
use distributed_storage.Base.{ℕ, Option, none, some, List, [], ◌∷◌, ℤ, pos, minus_one}
use distributed_storage.Clib.Exec as Exec
use distributed_storage.Clib.Exec.{Exec, done, exits, nonnull}
use distributed_storage.Clib.Strings.{Bytes, codes, cstring, zeros, memset, strcat, text_of}
use distributed_storage.RedisOp.Action.{Action, ◌>>=◌, ◌>>◌, return, lift}
use distributed_storage.RedisOp.Hiredis.{Hiredis}
use distributed_storage.RedisOp.Connect.{rop_connectdb_nopwd, rop_disconnect}
use distributed_storage.RedisOp.Values.{rop_list_push, rop_zset_increment}
use distributed_storage.Usefull.Suffix.{get_file_suffix}
use distributed_storage.Usefull.TrimSpace.{trim_space}

abbrev pub suffix_len : ℕ
suffix_len = 8

-- REDIS_DILIMIT
abbrev pub delimiter : Bytes
delimiter = cstring (codes "||")

-- Calls of `strcat` on the same array, one behind the other.
unfoldable pub strcat_all : Bytes → List Bytes → Exec Bytes
strcat_all b [] = done b
strcat_all b (s ∷ ss) = Exec.◌>>=◌ (strcat b s) λ b'. strcat_all b' ss

-- The array `redis_value_buf` when the commands are sent.
unfoldable pub make_value : Bytes → Bytes → Bytes → Bytes → Bytes → Bytes → Exec Bytes
make_value buf create_time file_id fdfs_file_url filename usr =
    Exec.◌>>=◌
      (strcat_all buf (file_id ∷ delimiter ∷ fdfs_file_url ∷ delimiter ∷ filename ∷ delimiter ∷ []))
      λ b. Exec.◌>>=◌ (trim_space create_time) λ time.
        Exec.◌>>=◌ (strcat_all b (time.1 ∷ delimiter ∷ usr ∷ delimiter ∷ [])) λ b.
          Exec.◌>>=◌ (get_file_suffix (some filename) (some (zeros suffix_len)))
            λ r. Exec.◌>>=◌ (nonnull r.1) λ suffix. strcat b suffix

module _ (H : Hiredis) where
  open H use {World, Context}

  -- From the memory on: the value is made, and the results of the two commands are dropped.
  unfoldable pub write_value :
      Context → Bytes → Bytes → Bytes → Bytes → Bytes → Bytes → Action World ℤ
  write_value conn block create_time file_id fdfs_file_url filename usr = do
    buf ← lift (memset block 1024)
    buf ← lift (make_value buf create_time file_id fdfs_file_url filename usr)
    value ← lift (text_of buf)
    pushed ← rop_list_push H conn (codes "FILE_INFO_LIST") value
    member ← lift (text_of file_id)
    counted ← rop_zset_increment H conn (codes "FILE_HOT_ZSET") member
    rop_disconnect H (some conn)
    return (pos 0)

  unfoldable pub with_memory :
      Context → Option Bytes → Bytes → Bytes → Bytes → Bytes → Bytes → Action World ℤ
  with_memory conn none create_time file_id fdfs_file_url filename usr = do
    rop_disconnect H (some conn)
    return minus_one
  with_memory conn (some block) create_time file_id fdfs_file_url filename usr =
      write_value conn block create_time file_id fdfs_file_url filename usr

  unfoldable pub with_connection :
      Option Context → Option Bytes → Bytes → Bytes → Bytes → Bytes → Bytes → Action World ℤ
  with_connection none malloc create_time file_id fdfs_file_url filename usr = lift (exits 1)
  with_connection (some conn) malloc create_time file_id fdfs_file_url filename usr =
      with_memory conn malloc create_time file_id fdfs_file_url filename usr

  unfoldable pub write_redis : Option Bytes → Bytes → Bytes → Bytes → Bytes → Bytes → Action World ℤ
  write_redis malloc create_time file_id fdfs_file_url filename usr = do
    conn ← rop_connectdb_nopwd H (codes "127.0.0.1") (codes "6379")
    with_connection conn malloc create_time file_id fdfs_file_url filename usr
