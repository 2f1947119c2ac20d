-- ===== src/Usefull/Upload.antt =====
-- `upload_file` of src/usefull.c: the name and the bytes of a file in the body of a form. Pointers into
-- `src` are offsets. `fopen` is given as whether it succeeds; the file that is written is a result.
pub mod Lines
pub mod Form
use distributed_storage.Base.{
  ℕ, zero, suc, ◌+◌, ◌-◌, Option, none, some, Bool, ◌&&◌, if◌then◌else◌, ltb, ℤ, pos, minus_one,
  sub_ℕ, length, take,
}
use distributed_storage.Clib.Exec.{Exec, done, fault, ◌>>=◌, nonnull}
use distributed_storage.Clib.Strings.{Bytes, codes, tail_at, strstr_at, memset, put_prefix, text_of}
use distributed_storage.Usefull.Memstr.{memstr}

abbrev pub crlf : Bytes
crlf = codes "\r\n"

abbrev pub dashes : Bytes
dashes = codes "---------"

-- `for (i = 0; i < rounds; i++) { s = strstr(q, key); q = s + 1; }`, the last `s`; a NULL is moved.
unfoldable pub crlf_loop : ℕ → Bytes → ℕ → ℕ → Exec ℕ
crlf_loop zero src q s = done s
crlf_loop (suc rounds) src q s = do
  found ← strstr_at src q crlf
  s ← nonnull found
  crlf_loop rounds src (s + 1) s

-- The name stands from 10 bytes behind "filename=" up to one byte in front of the second end of a
-- line. A negative length is a huge `size_t`.
unfoldable pub extract_name : Bytes → Bytes → Exec Bytes
extract_name src filename = do
  found ← strstr_at src 0 (codes "filename=")
  at ← nonnull found
  let p = at + 10
  s ← crlf_loop 2 src 0 0
  name_len ← if ltb s (p + 1) then fault else done (s - 1 - p)
  cleared ← memset filename (name_len + 1)
  from ← tail_at src p
  put_prefix cleared from name_len

-- The bytes stand behind the fourth end of a line, up to two bytes in front of the dashes. A negative
-- length is a huge `size_t` to `fwrite`, which is called where the file was opened.
unfoldable pub extract_data : Bytes → ℕ → Bool → Exec Bytes
extract_data src len can_open = do
  s ← crlf_loop 4 src 0 0
  let p = s + 2
  from ← tail_at src p
  found ← memstr (some from) (sub_ℕ len p) (some dashes)
  m ← nonnull found
  if can_open && ltb m 2 then fault else done (take (m - 2) from)

-- The result, the array `s_filename`, and the file that is written: its name and its bytes.
unfoldable pub upload_file : Bytes → ℕ → Bytes → Bool → Exec (ℤ × Bytes × Option (Bytes × Bytes))
upload_file src len s_filename can_open = do
  filename ← extract_name src s_filename
  bytes ← extract_data src len can_open
  path ← text_of filename
  done (if can_open then (pos 0, filename, some (path, bytes)) else (minus_one, filename, none))
