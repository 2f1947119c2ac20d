-- ===== src/Usefull/Suffix.antt =====
-- `get_file_suffix` of src/usefull.c: what follows the first dot of a file's name.
pub mod Spec
use distributed_storage.Base.{
  ℕ, ◌+◌, ◌-◌, Option, none, some, ltb, if◌then◌else◌, ℤ, pos, minus_one,
}
use distributed_storage.Clib.Exec.{Exec, done, fault, ◌>>=◌}
use distributed_storage.Clib.Strings.{
  Bytes, codes, cstring, strlen, strstr, strncpy, tail_at, put_prefix,
}

-- `strncpy(suffix, "null", 5)`
abbrev put_null : Bytes → Exec Bytes
put_null suffix = strncpy suffix (cstring (codes "null")) 5

-- The result and the array `s_suffix`; `none` is NULL.
unfoldable pub get_file_suffix : Option Bytes → Option Bytes → Exec (ℤ × Option Bytes)
get_file_suffix none suffix = done (minus_one, suffix)
get_file_suffix (some src) none = done (minus_one, none)
get_file_suffix (some src) (some suffix) = do
  end ← strlen src
  found ← strstr src (codes ".")
  written ← elim found [
    | none ↦ put_null suffix
    | some dot ↦
        let begin = dot + 1 in
        let copy = do from ← tail_at src begin; put_prefix suffix from (end - begin)
        in if ltb begin end then copy else put_null suffix
  ]
  done (pos 0, some written)
