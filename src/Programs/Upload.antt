-- ===== src/Programs/Upload.antt =====
-- `main` of src/upload.c: the loop over the requests that bring a file. What the environment, the
-- input, `fopen`, `malloc` and the clock hold for a request is given with it. The text that is printed
-- is left out.
pub mod Clean
pub mod Stored
pub mod Posted
pub mod Taken
pub mod Kept
pub mod Served
pub mod Processes
pub mod Grows
pub mod AnyRequest
pub mod Sizes
pub mod Cleared
use distributed_storage.Base.{
  ℕ, zero, suc, Option, none, some, List, [], ◌∷◌, Bool, not, if◌then◌else◌, ℤ, pos, negsuc,
  minus_one, eq_ℤ, ltb_ℤ, to_int,
}
use distributed_storage.Clib.Chars.{strtol}
use distributed_storage.Clib.Exec as Exec
use distributed_storage.Clib.Exec.{Exec, done, fault}
use distributed_storage.Clib.Strings.{Bytes, codes, cstring, cons_done, memset, strcpy, text_of}
use distributed_storage.RedisOp.Action.{Action, ◌>>=◌, ◌>>◌, return, lift, effect}
use distributed_storage.RedisOp.Hiredis.{Hiredis}
use distributed_storage.Usefull.Query.{get_usr}
use distributed_storage.Usefull.Storage.{fdfs_client, get_url, get_buf}
use distributed_storage.Usefull.System.{System}
use distributed_storage.Usefull.Upload.{upload_file}
use distributed_storage.Usefull.WriteRedis.{write_redis}

-- The environment, the bytes of the input, whether the file can be opened, the memory for the value,
-- and the array that `strftime` fills.
pub record Request : Type 0 where
  pub content_length : Option Bytes
  pub query_string : Option Bytes
  pub input : Bytes
  pub can_open : Bool
  pub memory : Option Bytes
  pub create_time : Bytes

-- The arrays of `main`.
pub record Arrays : Type 0 where
  pub filename : Bytes
  pub file_id : Bytes
  pub fdfs_file_url : Bytes
  pub usr : Bytes

-- A request leaves the arrays to the next one, or is the last one.
pub data Outcome : Type 0 where
  next : Arrays → Outcome
  returns : ℤ → Outcome

-- `int len`, from a `long`.
unfoldable pub content_len : Option Bytes → Exec ℤ
content_len none = done (pos 0)
content_len (some s) = Exec.◌>>=◌ (strtol s) λ n. done (to_int n)

-- The loop over `getchar`, up to the end of the input, and the byte 0 behind it.
unfoldable pub read_form : ℕ → Bytes → Bytes → Exec Bytes
read_form _ _ [] = fault
read_form zero _ (_ ∷ buf) = done (0 ∷ buf)
read_form (suc n) [] (_ ∷ buf) = done (0 ∷ buf)
read_form (suc n) (ch ∷ input) (_ ∷ buf) = cons_done ch (read_form n input buf)

-- END: the four calls of `memset`.
unfoldable pub clear : Arrays → Exec Arrays
clear s = Exec.◌>>=◌ (memset s.filename 256) λ filename.
    Exec.◌>>=◌ (memset s.file_id 256) λ file_id.
      Exec.◌>>=◌ (memset s.fdfs_file_url 256) λ fdfs_file_url. Exec.◌>>=◌ (memset s.usr 64) λ usr.
        done (record {
          filename = filename;
          file_id = file_id;
          fdfs_file_url = fdfs_file_url;
          usr = usr;
        })

module _ (H : Hiredis) (S : System H.World) where
  open H use {World}

  -- Behind the upload: the results of `get_url` and of `write_redis` are logged only.
  unfoldable pub register : Request → Arrays → Action World Arrays
  register req s = do
    path ← lift (text_of s.filename)
    effect (S.unlink path)
    url ← get_url S s.file_id s.fdfs_file_url
    usr ← lift (strcpy s.usr (cstring (codes "user")))
    written ← write_redis H req.memory req.create_time s.file_id url.1 s.filename usr
    return (record s { fdfs_file_url = url.1; usr = usr })

  unfoldable pub send_file : Request → Arrays → Action World Arrays
  send_file req s = do
    sent ← fdfs_client S s.filename s.file_id
    let t = record s { file_id = sent.1 }
    if not (eq_ℤ sent.0 (pos 0)) then return t else register req t

  -- The file that `upload_file` writes.
  abbrev pub save_file : Option (Bytes × Bytes) → Action World (Unit {0})
  save_file none = return tt
  save_file (some file) = effect (S.save file.0 file.1)

  unfoldable pub store : Request → Bytes → ℕ → Arrays → Action World Arrays
  store req buf len s = do
    made ← lift (upload_file buf len s.filename req.can_open)
    save_file made.2
    let t = record s { filename = made.1 }
    if not (eq_ℤ made.0 (pos 0)) then return t else send_file req t

  unfoldable pub with_buf : Request → ℕ → Option Bytes → Arrays → Action World Outcome
  with_buf req len none s = return (returns minus_one)
  with_buf req len (some buf) s = do
    form ← lift (read_form len req.input buf)
    stored ← store req form len s
    cleared ← lift (clear stored)
    return (next cleared)

  unfoldable pub with_len : Request → ℤ → Arrays → Action World Outcome
  with_len req (pos (suc n)) s = get_buf S (suc n) >>= λ buf. with_buf req (suc n) buf s
  with_len req (pos zero) s = lift (clear s) >>= λ cleared. return (next cleared)
  with_len req (negsuc n) s = lift (clear s) >>= λ cleared. return (next cleared)

  -- The body of the loop.
  unfoldable pub handle : Request → Arrays → Action World Outcome
  handle req s = do
    usr ← lift (get_usr req.query_string s.usr)
    let go =
        lift (content_len req.content_length) >>= λ len. with_len req len (record s { usr = usr.1 })
    if ltb_ℤ usr.0 (pos 0) then return (returns (pos 0)) else go

  abbrev pub go_on : Outcome → (Arrays → Action World ℤ) → Action World ℤ
  go_on (next s) rest = rest s
  go_on (returns n) rest = return n

  -- The loop, and the result of `main`.
  unfoldable pub serve : List Request → Arrays → Action World ℤ
  serve [] s = return (pos 0)
  serve (req ∷ reqs) s = handle req s >>= λ o. go_on o (serve reqs)
