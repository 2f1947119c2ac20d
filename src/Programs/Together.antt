-- ===== src/Programs/Together.antt =====
-- Both main programs, src/upload.c and src/data_cgi.c, on one server: their requests, one behind the
-- other, in any order. Each process answers a request to its end before the next one is taken.
use distributed_storage.Base.{
  ◌+◌, ◌≤◌, ◌<◌, ◌≡◌, Option, some, List, [], ◌∷◌, All, length, take, drop,
}
use distributed_storage.Clib.Chars.{int_max}
use distributed_storage.Clib.Decimal.{IsDecimal, number}
use distributed_storage.Clib.Exec.{Exec, done}
use distributed_storage.Clib.Strings.{Bytes, codes}
use distributed_storage.DataUse.Listing.{CJson}
use distributed_storage.FileInfo.{FileInfo}
use distributed_storage.Programs.DataCgi as DataCgi
use distributed_storage.Programs.DataCgi.Fresh as Fresh
use distributed_storage.Programs.DataCgi.Increase.{IsPart, escaped, plain, click_request}
use distributed_storage.Programs.DataCgi.NewFile.{list_request}
use distributed_storage.Programs.Upload as Upload
use distributed_storage.Programs.Upload.Clean.{clean}
use distributed_storage.Programs.Upload.Posted.{Posted}
use distributed_storage.Programs.Upload.Taken.{Run}
use distributed_storage.RedisOp.Connect.{rop_connectdb_nopwd}
use distributed_storage.RedisOp.Hiredis.{Hiredis}
use distributed_storage.RedisOp.Values.Replies.{IsRow}
use distributed_storage.RoundTrip as RoundTrip
use distributed_storage.Shelf.{Shelf, add, visit}
use distributed_storage.Shelf.Apart.{Apart}
use distributed_storage.Shelf.Shows.{IsShown}
use distributed_storage.Shelf.Traffic.{Event, uploaded, clicked}
use distributed_storage.Usefull.Storage.Url.{file_url}
use distributed_storage.Usefull.System.{System}

module _ (H : Hiredis) (S : System H.World) (C : CJson) (conn : H.Context) where
  open H use {World}

  -- A connection to the server is made.
  abbrev pub Opens : World → World → Type 0
  Opens w w₀ = rop_connectdb_nopwd H (codes "127.0.0.1") (codes "6379") w ≡ done (some conn, w₀)

  -- The runs of the two loops' bodies from a shelf on, with what they do to it: a form with a file, a
  -- visit, and a page of the list, which does nothing to it.
  pub data Serves : Shelf → List Event → World → World → Type 0 where
    ends : {shelf : Shelf} {w : World} → Serves shelf [] w w
    takes :
        {shelf : Shelf} {events : List Event} {w w₁ w' : World} (req : Upload.Request)
        (info : FileInfo) (bytes ip rd : Bytes) (u w₀ : World) (o : Upload.Outcome)
        (sent : Posted req info bytes)
        → Run H S info bytes ip (length sent.form) w u
        → RoundTrip.Upload info req.create_time rd 1024
        → info.user ≡ codes "user"
        → info.url ≡ file_url ip info.file_id
        → length info.url < 256
        → Opens u w₀
        → Upload.handle H S req clean w ≡ done (o, w₁)
        → Serves (add info shelf) events w₁ w'
        → Serves shelf (uploaded info ∷ events) w w'
    counts :
        {shelf : Shelf} {events : List Event} {w w₁ w' : World} (p : Bytes) (ps : List Bytes)
        (last r : Bytes) (hp : IsPart p) (h : All IsPart ps) (hl : IsPart last) (rows : List Bytes)
        (s : DataCgi.Arrays) (w₀ : World) (o : DataCgi.Outcome × DataCgi.Arrays)
        → Fresh.IsSized s
        → length (escaped p ps last r hp h hl) < 256
        → Opens w w₀
        → DataCgi.handle H C (click_request p ps last r hp h hl H C rows) s w ≡ done (o, w₁)
        → Serves (visit (plain p ps last r hp h hl) shelf) events w₁ w'
        → Serves shelf (clicked (plain p ps last r hp h hl) ∷ events) w w'
    lists :
        {shelf : Shelf} {events : List Event} {w w₁ w' : World} (f c r : Bytes) (hf : IsDecimal f)
        (hc : IsDecimal c) (rows : List Bytes) (block : Option Bytes) (s : DataCgi.Arrays)
        (w₀ : World) (o : DataCgi.Outcome × DataCgi.Arrays)
        → Fresh.IsSized s
        → length f < 64
        → length c < 5
        → number f 0 + number c 0 ≤ int_max
        → 1 ≤ number c 0
        → All (IsShown shelf) (take (number c 0) (drop (number f 0) shelf.files))
        → All IsRow rows
        → number c 0 ≤ length rows
        → Opens w w₀
        → DataCgi.handle H C (list_request f c r hf hc H C rows block) s w ≡ done (o, w₁)
        → Serves shelf events w₁ w'
        → Serves shelf events w w'
