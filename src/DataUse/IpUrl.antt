-- ===== src/DataUse/IpUrl.antt =====
-- `get_ip_url` of src/data_use.c: the part of a url in front of "/group".
pub mod Prefix
use distributed_storage.Base.{Option, none, some, ℤ, pos, minus_one}
use distributed_storage.Clib.Exec.{Exec, done, ◌>>=◌}
use distributed_storage.Clib.Strings.{Bytes, codes, cstring, strstr, strncpy, put_prefix}

-- The result and the array `s_get_ip_buf`; `none` is NULL.
unfoldable pub get_ip_url : Option Bytes → Option Bytes → Exec (ℤ × Option Bytes)
get_ip_url none buf = done (minus_one, buf)
get_ip_url (some url) none = done (minus_one, none)
get_ip_url (some url) (some buf) = do
  found ← strstr url (codes "/group")
  written ← elim found [
    | none ↦ strncpy buf (cstring (codes "null")) 5
    | some len ↦ put_prefix buf url len
  ]
  done (pos 0, some written)
