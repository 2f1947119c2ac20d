-- ===== src/Programs/Upload/Stored.antt =====
-- A request that brings a file, from the form to the list of files.
use distributed_storage.Base.{
  ℕ, ◌-◌, ◌<◌, ◌≡◌, ap, sym, ◌∙◌, some, [], ◌∷◌, ◌++◌, arith, length, drop, ltb, lt→ltb, pos, true,
  ℤ,
}
use distributed_storage.Clib.Copy.{padded-suc, strcpy-text}
use distributed_storage.Clib.Exec.{done}
use distributed_storage.Clib.First.{Absent}
use distributed_storage.Clib.Search.{text_of-text}
use distributed_storage.Clib.Strings.{Bytes, IsText, codes, zeros, padded}
use distributed_storage.FileInfo.{FileInfo, print}
use distributed_storage.FileInfo.Separators.{IsClean-IsText}
use distributed_storage.Programs.Upload.{Request, register}
use distributed_storage.RedisOp.Connect.{rop_connectdb_nopwd}
use distributed_storage.RedisOp.Hiredis.{Hiredis}
use distributed_storage.RedisOp.Values.{rop_list_push, rop_zset_increment}
use distributed_storage.RoundTrip.{Upload}
use distributed_storage.RoundTrip.Sent.{write_redis-print}
use distributed_storage.Usefull.Storage.{address_key}
use distributed_storage.Usefull.Storage.Answers.{Answers}
use distributed_storage.Usefull.Storage.Url.{get_url-file_url, output, file_url, IsLine}
use distributed_storage.Usefull.Storage.{get_url}
use distributed_storage.Usefull.System.{System}
use distributed_storage.Usefull.TrimSpace.{may_copy}
use distributed_storage.Usefull.TrimSpace.Spaced.{IsSpaced}

-- The storage's program names the file: its output is the id with spaces around it, those in front as
-- many as the id has bytes or none, so that `trim_space` may copy it.
pub record Named (id out : Bytes) : Type 0 where
  pub before : Bytes
  pub front : Bytes
  pub last : ℕ
  pub behind : Bytes
  pub is_id : id ≡ front ++ last ∷ []
  pub is_out : out ≡ before ++ (front ++ last ∷ behind)
  pub is_spaced : IsSpaced before front last behind
  pub free : may_copy (length before) (length (front ++ last ∷ [])) ≡ true
  pub short : length out < 256

-- The other program tells where the file is: the first line with the key has the address behind it,
-- in fewer than 16 bytes, with no space between them, or as many as the address has bytes. The output
-- is shorter than the buffer.
pub record Located (ip out : Bytes) : Type 0 where
  pub lines : Bytes
  pub before : Bytes
  pub front : Bytes
  pub last : ℕ
  pub behind : Bytes
  pub rest : Bytes
  pub is_text : IsText lines
  pub first : Absent address_key (lines ++ address_key) (length lines)
  pub is_spaced : IsSpaced before front last behind
  pub is_line : IsLine (before ++ (front ++ last ∷ behind))
  pub is_ip : ip ≡ front ++ last ∷ []
  pub is_out : out ≡ output lines (before ++ (front ++ last ∷ behind)) rest is_text first is_line
  pub short : length (before ++ (front ++ last ∷ behind)) < 16
  pub free : may_copy (length before) (length (front ++ last ∷ [])) ≡ true
  pub fits : length out < 256

get_url-Located :
    {W : Type 0} (S : System W) (ip out id ra : Bytes) (w w' : W)
    → Located ip out
    → IsText id
    → Answers S w out w'
    → length (file_url ip id) < 256
    → get_url S (id ++ 0 ∷ ra) (zeros 256) w ≡ done ((pos 0, padded 256 (file_url ip id)), w')
get_url-Located S ip out id ra w w' loc text run fits =
    let line = loc.before ++ (loc.front ++ loc.last ∷ loc.behind) in
    let short : ltb (length line) 16 ≡ true = lt→ltb (length line) 16 loc.short in
    let url =
      get_url-file_url loc.lines loc.before loc.front loc.last loc.behind id ra loc.is_text
        loc.first loc.is_spaced loc.is_line text S w w' loc.rest (rw loc.is_out at run)
        (rw loc.is_out at loc.fits) (rw loc.is_ip at fits) in
    rw loc.is_ip (rw (short, loc.free) at url)

module _ (H : Hiredis) (S : System H.World) (conn : H.Context) where
  open H use {World}

  -- What the server is told of a file: the value is put at the front of the list, the id is counted, and
  -- the connection is released.
  pub record Listed (value id : Bytes) (w w' : World) : Type 0 where
    pub connected : World
    pub listed : World
    pub done_with : World
    pub pushed : ℤ
    pub counted : ℤ
    pub opens :
        rop_connectdb_nopwd H (codes "127.0.0.1") (codes "6379") w ≡ done (some conn, connected)
    pub pushes :
        rop_list_push H conn (codes "FILE_INFO_LIST") value connected ≡ done (pushed, listed)
    pub counts :
        rop_zset_increment H conn (codes "FILE_HOT_ZSET") id listed ≡ done (counted, done_with)
    pub frees : H.free conn done_with ≡ w'

  pub register-Listed :
      (info : FileInfo) (req : Request) (ip out block ra rc rd usr : Bytes) (w w₁ w' : World)
      → req.memory ≡ some block
      → length block ≡ 1024
      → length usr ≡ 64
      → Upload info req.create_time rd 1024
      → info.user ≡ codes "user"
      → Located ip out
      → info.url ≡ file_url ip info.file_id
      → length info.url < 256
      → Answers S (S.unlink info.filename w) out w₁
      → Listed (print info) info.file_id w₁ w'
      → register H S req
          (record {
            filename = info.filename ++ 0 ∷ rc;
            file_id = info.file_id ++ 0 ∷ ra;
            fdfs_file_url = zeros 256;
            usr = usr;
          })
          w
        ≡ done (
          record {
            filename = info.filename ++ 0 ∷ rc;
            file_id = info.file_id ++ 0 ∷ ra;
            fdfs_file_url = padded 256 info.url;
            usr = codes "user" ++ 0 ∷ drop 5 usr;
          },
          w',
        )
  unfolding register
  register-Listed info req ip out block ra rc rd usr w w₁ w' memory size usr_size up is_user loc
        is_url fits run told =
      let ok = up.is_stored in
      let id = IsClean-IsText info.file_id ok.fields.0 in
      let name = IsClean-IsText info.filename ok.fields.1.1.0 in
      let found =
        get_url-Located S ip out info.file_id ra (S.unlink info.filename w) w₁ loc id run
          (rw is_url at fits)
        ∙ ap (λ t. done ((pos 0, padded 256 t), w₁)) (sym is_url) in
      let room : length (codes "user") < length usr = omega arith in
      let written =
        rw (is_user, told.frees) at
          (write_redis-print H conn info block req.create_time ra
            (zeros (256 - length info.url - 1)) rc rd (drop 5 usr) told.pushed told.counted w₁
            told.connected told.listed told.done_with up size told.opens told.pushes told.counts) in
      rw (
        text_of-text info.filename rc name,
        found,
        strcpy-text (codes "user") [] usr (omega arith) room,
        memory,
        padded-suc 256 info.url fits,
        written,
      )
