-- ===== src/Programs/Upload/Kept.antt =====
-- A request with one file against the shelf.
use distributed_storage.Base.{ℕ, ◌+◌, ap, subst, ◌<◌, ◌≡◌, refl, some, length, pos, minus_one}
use distributed_storage.Clib.Exec.{done}
use distributed_storage.Clib.Strings.{Bytes, codes}
use distributed_storage.FileInfo.{FileInfo, print}
use distributed_storage.Programs.Upload.{Request, next, handle}
use distributed_storage.Programs.Upload.Clean.{clean}
use distributed_storage.Programs.Upload.Posted.{Posted}
use distributed_storage.Programs.Upload.Stored.{Listed}
use distributed_storage.Programs.Upload.Taken.{Run, handle-stored}
use distributed_storage.RedisOp.Connect.{rop_connectdb_nopwd}
use distributed_storage.RedisOp.Hiredis.{Hiredis}
use distributed_storage.RoundTrip.{Upload}
use distributed_storage.Shelf.{Shelf, ServerLaws, Holds, add}
use distributed_storage.Shelf.Apart.{Apart, Keeps-trans, Keeps-Holds, Answers-Keeps}
use distributed_storage.Shelf.Connects.{Keeps}
use distributed_storage.Shelf.Connects.{connected-Holds}
use distributed_storage.Shelf.Writes.{push_count-add}
use distributed_storage.Usefull.Storage.Url.{file_url}
use distributed_storage.Usefull.System.{System}

module _ (H : Hiredis) (S : System H.World) (conn : H.Context) (laws : ServerLaws H conn)
    (apart : Apart H S conn laws) where
  open H use {World}

  -- The server holds the same when the storage's programs are done.
  Run-Keeps :
      (info : FileInfo) (bytes ip : Bytes) (len : ℕ) (w u : World)
      → Run H S info bytes ip len w u
      → Keeps H conn laws w u
  Run-Keeps info bytes ip len w u run =
      let then_ = Keeps-trans H S conn laws in
      let saved = S.save info.filename bytes run.allocated in
      let gone = S.unlink info.filename run.uploaded in
      let given =
        subst (Keeps H conn laws w) (ap (λ r. r.1) run.gives) (apart.malloc (len + 1) w) in
      let sent = Answers-Keeps H S conn laws saved run.uploaded run.out_id apart run.uploads in
      let found = Answers-Keeps H S conn laws gone u run.out_ip apart run.searches in
      then_ w run.allocated u given (
        then_ run.allocated saved u (apart.save info.filename bytes run.allocated) (
          then_ saved run.uploaded u sent
            (then_ run.uploaded gone u (apart.unlink info.filename run.uploaded) found)))

  Listed-add :
      (info : FileInfo) (shelf : Shelf) (w w₀ : World)
      → rop_connectdb_nopwd H (codes "127.0.0.1") (codes "6379") w ≡ done (some conn, w₀)
      → Holds H conn laws shelf w
      → (w' : World) × Listed H S conn (print info) info.file_id w w'
        × Holds H conn laws (add info shelf) w'
  Listed-add info shelf w w₀ opened before =
      let held = connected-Holds H conn laws shelf w w₀ opened before in
      let (w₁, w₂, pushed, counted, added) = push_count-add H conn laws info shelf w₀ held in
      (
        H.free conn w₂,
        record {
          connected = w₀;
          listed = w₁;
          done_with = w₂;
          pushed = pos 0;
          counted = minus_one;
          opens = opened;
          pushes = pushed;
          counts = counted;
          frees = refl;
        },
        added,
      )

  pub handle-add :
      (req : Request) (info : FileInfo) (bytes ip rd : Bytes) (shelf : Shelf) (w u w₀ : World)
      (sent : Posted req info bytes)
      → Run H S info bytes ip (length sent.form) w u
      → Upload info req.create_time rd 1024
      → info.user ≡ codes "user"
      → info.url ≡ file_url ip info.file_id
      → length info.url < 256
      → rop_connectdb_nopwd H (codes "127.0.0.1") (codes "6379") u ≡ done (some conn, w₀)
      → Holds H conn laws shelf w
      → (w' : World) × (handle H S req clean w ≡ done (next clean, w'))
        × Holds H conn laws (add info shelf) w'
  handle-add req info bytes ip rd shelf w u w₀ sent run up is_user is_url fits opened held =
      let kept =
        Keeps-Holds H S conn laws shelf w u (Run-Keeps info bytes ip (length sent.form) w u run)
          held in
      let (w', told, added) = Listed-add info shelf u w₀ opened kept in
      (
        w',
        handle-stored H S conn req info bytes ip rd w u w' sent run told up is_user is_url fits,
        added,
      )
