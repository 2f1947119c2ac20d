-- ===== src/FileInfo.antt =====
-- The value format of the list FILE_INFO_LIST that include/redis_keys.h documents:
-- file_id||url||filename||create time||user||type. The writer (src/usefull.c) and the reader
-- (src/data_use.c) are both related to this description.
pub mod Separators
use distributed_storage.Base.{ℕ, zero, suc, ◌≢◌, List, [], ◌∷◌, ◌++◌, All, length, ◌<◌}
use distributed_storage.Clib.Strings.{Bytes, IsText}
use Separators.{IsClean, fields_text}

pub record FileInfo : Type 0 where
  pub file_id : Bytes
  pub url : Bytes
  pub filename : Bytes
  pub create_time : Bytes
  pub user : Bytes
  pub kind : Bytes

abbrev pub front : FileInfo → List Bytes
front info = info.file_id ∷ info.url ∷ info.filename ∷ info.create_time ∷ info.user ∷ []

-- The text of the documented format.
abbrev pub print : FileInfo → Bytes
print info = fields_text (front info) info.kind

-- The field of a number, as the reader counts them.
abbrev pub field : FileInfo → ℕ → Bytes
field info (suc zero) = info.file_id
field info (suc (suc zero)) = info.url
field info (suc (suc (suc zero))) = info.filename
field info (suc (suc (suc (suc zero)))) = info.create_time
field info (suc (suc (suc (suc (suc zero))))) = info.user
field info _ = info.kind

-- The fields hold no separator, and the three in front of the user are not empty.
pub record IsStored (info : FileInfo) : Type 0 where
  pub fields : All IsClean (front info)
  pub kind_clean : IsClean info.kind
  pub url_ne_nil : info.url ≢ []
  pub filename_ne_nil : info.filename ≢ []
  pub create_time_ne_nil : info.create_time ≢ []
