-- ===== src/RoundTrip/Sent.antt =====
-- What `write_redis` sends to the server for an upload, and what it makes of the answers.
use distributed_storage.Base.{◌-◌, ◌≡◌, ◌∷◌, ◌++◌, length, pos, ℤ, some}
use distributed_storage.Clib.Exec.{done}
use distributed_storage.Clib.Strings.{Bytes, codes, zeros}
use distributed_storage.Clib.Append.{memset-whole}
use distributed_storage.Clib.Copy.{padded-suc}
use distributed_storage.Clib.Search.{text_of-text}
use distributed_storage.FileInfo.{FileInfo, print, front}
use distributed_storage.FileInfo.Separators.{IsClean-IsText, fields_text-IsText}
use distributed_storage.RedisOp.Hiredis.{Hiredis}
use distributed_storage.RedisOp.Connect.{rop_connectdb_nopwd, rop_disconnect}
use distributed_storage.RedisOp.Values.{rop_list_push, rop_zset_increment}
use distributed_storage.RoundTrip.{Upload}
use distributed_storage.Usefull.WriteRedis.{write_redis, write_value, with_memory, with_connection}
use distributed_storage.Usefull.WriteRedis.Value.{make_value-print}

module _ (H : Hiredis) (conn : H.Context) where
  -- For an upload write_redis pushes exactly the text of the documented format, counts the file's
  -- id, releases the connection, and returns 0 whatever the two operations return. The text has
  -- fewer than 1024 bytes, the suffix behind the name's first dot fewer than 8, the url, the name
  -- and the time are not empty, no field holds '|' or a byte 0, the spaces around the time are
  -- such that trim_space may copy it, a connection is made, malloc gives 1024 bytes, whatever they
  -- hold, and the two operations return.
  pub write_redis-print :
      (info : FileInfo) (block create_time ra rb rc rd re : Bytes) (pushed counted : ℤ)
      (w w₀ w₁ w₂ : H.World)
      → Upload info create_time rd 1024
      → length block ≡ 1024
      → rop_connectdb_nopwd H (codes "127.0.0.1") (codes "6379") w ≡ done (some conn, w₀)
      → rop_list_push H conn (codes "FILE_INFO_LIST") (print info) w₀ ≡ done (pushed, w₁)
      → rop_zset_increment H conn (codes "FILE_HOT_ZSET") info.file_id w₁ ≡ done (counted, w₂)
      → write_redis H
          (some block)
          create_time
          (info.file_id ++ 0 ∷ ra)
          (info.url ++ 0 ∷ rb)
          (info.filename ++ 0 ∷ rc)
          (info.user ++ 0 ∷ re)
          w
        ≡ done (pos 0, H.free conn w₂)
  unfolding write_redis with_connection with_memory write_value rop_disconnect
  write_redis-print info block create_time ra rb rc rd re pushed counted w w₀ w₁ w₂ up len opened
        push count =
      let ok = up.is_stored in
      let id = IsClean-IsText info.file_id ok.fields.0 in
      let made =
        make_value-print 1024 info create_time ra rb rc rd re id
          (IsClean-IsText info.url ok.fields.1.0) (IsClean-IsText info.filename ok.fields.1.1.0)
          (IsClean-IsText info.create_time ok.fields.1.1.1.0)
          (IsClean-IsText info.user ok.fields.1.1.1.1.0) up.is_kind
          (IsClean-IsText info.kind ok.kind_clean) up.trimmed up.short up.fits in
      rw (
        opened,
        memset-whole block 1024 len,
        made,
        padded-suc 1024 (print info) up.fits,
        text_of-text (print info) (zeros (1024 - length (print info) - 1)) (
            fields_text-IsText (front info) info.kind ok.fields
              (IsClean-IsText info.kind ok.kind_clean)),
        push,
        text_of-text info.file_id ra id,
        count,
      )
