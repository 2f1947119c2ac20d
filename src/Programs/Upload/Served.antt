-- ===== src/Programs/Upload/Served.antt =====
-- The whole loop of `main` on requests that bring files.
use distributed_storage.Base.{◌<◌, ◌≡◌, some, List, [], ◌∷◌, length}
use distributed_storage.Clib.Exec.{done}
use distributed_storage.Clib.Strings.{Bytes, codes}
use distributed_storage.FileInfo.{FileInfo}
use distributed_storage.Programs.Upload.{Request, Outcome, handle}
use distributed_storage.Programs.Upload.Clean.{clean}
use distributed_storage.Programs.Upload.Posted.{Posted}
use distributed_storage.Programs.Upload.Taken.{Run}
use distributed_storage.RedisOp.Connect.{rop_connectdb_nopwd}
use distributed_storage.RedisOp.Hiredis.{Hiredis}
use distributed_storage.RoundTrip.{Upload}
use distributed_storage.Shelf.{Shelf}
use distributed_storage.Shelf.Apart.{Apart}
use distributed_storage.Usefull.Storage.Url.{file_url}
use distributed_storage.Usefull.System.{System}

module _ (H : Hiredis) (S : System H.World) (conn : H.Context) where
  open H use {World}

  -- The requests in their order, each with the file that it brings and the worlds that its parts reach.
  pub data Brings : List Request → List FileInfo → World → World → Type 0 where
    none_left : {w : World} → Brings [] [] w w
    brings :
        {reqs : List Request} {infos : List FileInfo} {w w₁ w' : World} (req : Request)
        (info : FileInfo) (bytes ip rd : Bytes) (u w₀ : World) (o : Outcome)
        (sent : Posted req info bytes)
        → Run H S info bytes ip (length sent.form) w u
        → Upload info req.create_time rd 1024
        → info.user ≡ codes "user"
        → info.url ≡ file_url ip info.file_id
        → length info.url < 256
        → rop_connectdb_nopwd H (codes "127.0.0.1") (codes "6379") u ≡ done (some conn, w₀)
        → handle H S req clean w ≡ done (o, w₁)
        → Brings reqs infos w₁ w'
        → Brings (req ∷ reqs) (info ∷ infos) w w'
