-- ===== src/Usefull/Storage.antt =====
-- The functions of src/usefull.c that use the storage's programs: `fdfs_client` uploads a file and
-- reads its id, `get_url` reads the address of the server that holds it; and `get_buf`.
pub mod Answers
pub mod Client
pub mod Url
pub mod Buffer
pub mod Descriptors
use distributed_storage.Base.{
  ℕ, suc, ◌+◌, Option, none, some, List, [], ◌∷◌, ◌++◌, leb, if◌then◌else◌, not, ℤ, pos, minus_one,
  length, drop,
}
use distributed_storage.Clib.Chars.{int_max}
use distributed_storage.Clib.Exec as Exec
use distributed_storage.Clib.Exec.{Exec, done, exits, fault, nonnull}
use distributed_storage.Clib.Strings.{
  Bytes, codes, cstring, zeros, tail_at, strstr, strcat, put_prefix, memset, text_of,
}
use distributed_storage.RedisOp.Action.{Action, ◌>>=◌, ◌>>◌, return, lift, call, effect}
use distributed_storage.Usefull.System.{System, Forked, refused, child, parent, reading, writing}
use distributed_storage.Usefull.TrimSpace.{trim_space}

-- FILE_ID_LEN and TEMP_BUF_MAX_LEN
abbrev pub file_id_len : ℕ
file_id_len = 256

abbrev pub temp_buf_max_len : ℕ
temp_buf_max_len = 256

-- FDFS_CLIENT_CONF
abbrev pub fdfs_client_conf : Bytes
fdfs_client_conf = codes "./conf/client.conf"

-- `char key[] = "source ip address:"`
abbrev pub address_key : Bytes
address_key = codes "source ip address:"

-- The bytes that `read` puts at the start of an array.
unfoldable pub put_read : Bytes → Bytes → Exec Bytes
put_read buf out =
    if leb (length out) (length buf) then done (out ++ drop (length out) buf) else fault

-- From the line of the server's address to the url, behind the read: `strchr(begin, '\n')` is
-- given as the search of a text of one byte. NULL is moved, or subtracted from, which is a fault.
unfoldable pub url_of : Bytes → Bytes → Bytes → Exec Bytes
url_of fdfs_buf file_id url = Exec.◌>>=◌ (strstr fdfs_buf address_key) λ found.
    Exec.◌>>=◌ (nonnull found) λ at.
      Exec.◌>>=◌ (tail_at fdfs_buf (at + length address_key)) λ begin.
        Exec.◌>>=◌ (strstr begin (codes "\n")) λ found. Exec.◌>>=◌ (nonnull found) λ ip_len.
          Exec.◌>>=◌ (put_prefix (zeros 16) begin ip_len) λ ip_buf.
            Exec.◌>>=◌ (trim_space ip_buf) λ ip.
              Exec.◌>>=◌ (strcat url (cstring (codes "http://"))) λ url.
                Exec.◌>>=◌ (strcat url ip.1)
                  λ url. Exec.◌>>=◌ (strcat url (cstring (codes "/"))) λ url. strcat url file_id

module _ {W : Type 0} (S : System W) where
  -- The new process: its output goes to the pipe, and another program takes its place. Where that
  -- fails, the new process goes on in this one with the result -1.
  unfoldable pub run_child : Bytes → Bytes → Bytes → Action W (ℤ × Bytes)
  run_child program arg out = do
    text ← lift (text_of arg)
    effect (S.close reading)
    effect S.dup
    replaced ← call (S.exec program (fdfs_client_conf ∷ text ∷ []))
    elim replaced [ none ↦ return (minus_one, out) | some status ↦ lift (exits status) ]

  -- The old process: the program is awaited, and what it wrote is read into an array.
  unfoldable pub read_child : ℕ → Bytes → Action W Bytes
  read_child size buf = do
    effect (S.close writing)
    effect S.wait
    out ← call (S.read size)
    lift (put_read buf out)

  -- `pid` is not tested behind the message on an error: the code goes on as in the old process.
  unfoldable pub fdfs_parent : Bytes → Action W (ℤ × Bytes)
  fdfs_parent s_file_id = do
    buf ← read_child file_id_len s_file_id
    file_id ← lift (trim_space buf)
    return (pos 0, file_id.1)

  unfoldable pub fdfs_forked : Forked → Bytes → Bytes → Action W (ℤ × Bytes)
  fdfs_forked refused s_filename s_file_id = fdfs_parent s_file_id
  fdfs_forked child s_filename s_file_id = run_child (codes "fdfs_upload_file") s_filename s_file_id
  fdfs_forked parent s_filename s_file_id = fdfs_parent s_file_id

  -- The result and the array `s_file_id`.
  unfoldable pub fdfs_client : Bytes → Bytes → Action W (ℤ × Bytes)
  fdfs_client s_filename s_file_id = do
    opened ← call S.pipe
    let go = call S.fork >>= λ forked. fdfs_forked forked s_filename s_file_id
    if not opened then lift (exits 1) else go

  -- The buffer is logged as a text, which it is not where the read fills it and brings no byte 0.
  unfoldable pub get_url_forked : Forked → Bytes → Bytes → Action W (ℤ × Bytes)
  get_url_forked refused s_file_id s_url = return (minus_one, s_url)
  get_url_forked child s_file_id s_url = run_child (codes "fdfs_file_info") s_file_id s_url
  get_url_forked parent s_file_id s_url = do
    fdfs_buf ← read_child file_id_len (zeros temp_buf_max_len)
    logged ← lift (text_of fdfs_buf)
    url ← lift (url_of fdfs_buf s_file_id s_url)
    return (pos 0, url)

  -- The result and the array `s_url`.
  unfoldable pub get_url : Bytes → Bytes → Action W (ℤ × Bytes)
  get_url s_file_id s_url = do
    opened ← call S.pipe
    let go = call S.fork >>= λ forked. get_url_forked forked s_file_id s_url
    if not opened then return (minus_one, s_url) else go

  -- The memory of `len + 1` bytes, cleared; `none` is the result -1. The sum is one of `int`.
  unfoldable pub get_buf : ℕ → Action W (Option Bytes)
  get_buf len = do
    size ← lift (if leb int_max len then fault else done (len + 1))
    block ← call (S.malloc size)
    elim block [ none ↦ return none | some b ↦ lift (memset b size) >>= λ buf. return (some buf) ]
