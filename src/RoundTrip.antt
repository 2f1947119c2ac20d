-- ===== src/RoundTrip.antt =====
-- The writer (`write_redis`) against the reader (`get_value_by_redis`): both use the format of
-- include/redis_keys.h.
pub mod Sent
use distributed_storage.Base.{ℕ, ◌-◌, ◌<◌, ◌≤◌, ◌≡◌, ◌++◌, ◌∷◌, length, pos}
use distributed_storage.Clib.Exec.{done, ◌>>=◌}
use distributed_storage.Clib.Strings.{Bytes, zeros, padded}
use distributed_storage.Clib.Copy.{padded-suc}
use distributed_storage.DataUse.Fields.{get_value_by_redis}
use distributed_storage.DataUse.Fields.RoundTrip.{get_value_by_redis-print}
use distributed_storage.FileInfo.{FileInfo, print, field, IsStored}
use distributed_storage.FileInfo.Separators.{IsClean-IsText}
use distributed_storage.Usefull.Suffix.Spec.{suffix_of}
use distributed_storage.Usefull.TrimSpace.{trim_space}
use distributed_storage.Usefull.WriteRedis.{make_value, suffix_len}
use distributed_storage.Usefull.WriteRedis.Value.{make_value-print}

-- What is known of an upload: the texts, where each stands in its array, and the sizes.
pub record Upload (info : FileInfo) (create_time rd : Bytes) (size : ℕ) : Type 0 where
  pub is_stored : IsStored info
  pub is_kind : info.kind ≡ suffix_of info.filename
  pub trimmed : trim_space create_time ≡ done (pos 0, info.create_time ++ 0 ∷ rd)
  pub short : length info.kind < suffix_len
  pub fits : length (print info) < size

-- Every field that is written is read back: from the value that `write_redis` makes of an upload whose
-- fields hold no '|' and whose url, name and time are not empty, `get_value_by_redis` gets the field
-- of each number from 1 to 6, with the suffix of the file's name as the sixth.
pub get_value_by_redis-make_value :
    (info : FileInfo) (create_time ra rb rc rd re : Bytes) (size k n max_len : ℕ)
    → Upload info create_time rd size
    → 10 ≤ n
    → 1 ≤ k
    → k ≤ 6
    → length (field info k) < n
    → length (field info k) ≤ max_len
    → (make_value
          (zeros size)
          create_time
          (info.file_id ++ 0 ∷ ra)
          (info.url ++ 0 ∷ rb)
          (info.filename ++ 0 ∷ rc)
          (info.user ++ 0 ∷ re)
        >>= λ value. get_value_by_redis value (pos k) (zeros n) max_len)
      ≡ done (pos 0, padded n (field info k))
get_value_by_redis-make_value info create_time ra rb rc rd re size k n max_len up ten lo hi room
      le =
    let ok = up.is_stored in
    let made =
      make_value-print size info create_time ra rb rc rd re
        (IsClean-IsText info.file_id ok.fields.0) (IsClean-IsText info.url ok.fields.1.0)
        (IsClean-IsText info.filename ok.fields.1.1.0)
        (IsClean-IsText info.create_time ok.fields.1.1.1.0)
        (IsClean-IsText info.user ok.fields.1.1.1.1.0) up.is_kind
        (IsClean-IsText info.kind ok.kind_clean) up.trimmed up.short up.fits in
    rw (made, padded-suc size (print info) up.fits)
      (get_value_by_redis-print info (zeros (size - length (print info) - 1)) k n max_len ok ten lo
        hi room le)
