-- ===== src/Usefull/Query.antt =====
-- `get_query_string` of src/usefull.c and the five functions that call it.
pub mod Value
pub mod Parameter
use distributed_storage.Base.{
  ℕ, ◌+◌, suc, Bool, Option, none, some, [], ◌∷◌, ◌==◌, ◌||◌, if◌then◌else◌, ℤ, pos, minus_one,
  length,
}
use distributed_storage.Clib.Exec.{Exec, done, fault, ◌>>=◌, nonnull}
use distributed_storage.Clib.Strings.{Bytes, suc_done, codes, strstr, put_prefix, tail_at, strlen}

-- `while ('\0' != *end && '#' != *end && '&' != *end) end++`, as the number of steps.
unfoldable pub value_len : Bytes → Exec ℕ
value_len [] = fault
value_len (c ∷ s) = if c == 0 || c == b'#' || c == b'&' then done 0 else suc_done (value_len s)

-- The result, the array `value`, and what is stored through `value_len_p` where that is not NULL.
unfoldable pub get_query_string : Option Bytes → Bytes → Bytes → Bool → Exec (ℤ × Bytes × Option ℕ)
get_query_string query key value has_len = do
  q ← nonnull query
  found ← strstr q key
  elim found [
    | none ↦ done (minus_one, value, none)
    | some at ↦ do
      let tmp = at + length key + 1
      from ← tail_at q tmp
      n ← value_len from
      written ← put_prefix value from n
      done (pos 0, written, if has_len then some n else none)
  ]

-- The body that the five functions share: `getenv("QUERY_STRING")` is an argument, the result of
-- `get_query_string` is dropped, and `strlen` of the array decides what is logged.
unfoldable pub get_parameter : Bytes → Option Bytes → Bytes → Exec (ℤ × Bytes)
get_parameter key query_string value = do
  r ← get_query_string query_string key value Bool.false
  n ← strlen r.1
  done (pos 0, r.1)

unfoldable pub get_cmd : Option Bytes → Bytes → Exec (ℤ × Bytes)
get_cmd query_string cmd = get_parameter (codes "cmd") query_string cmd

unfoldable pub get_from_id : Option Bytes → Bytes → Exec (ℤ × Bytes)
get_from_id query_string from_id = get_parameter (codes "fromId") query_string from_id

unfoldable pub get_cnt : Option Bytes → Bytes → Exec (ℤ × Bytes)
get_cnt query_string cnt = get_parameter (codes "count") query_string cnt

unfoldable pub get_usr : Option Bytes → Bytes → Exec (ℤ × Bytes)
get_usr query_string usr = get_parameter (codes "user") query_string usr

unfoldable pub get_file_id : Option Bytes → Bytes → Exec (ℤ × Bytes)
get_file_id query_string file_id = get_parameter (codes "fileId") query_string file_id
