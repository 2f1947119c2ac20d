-- ===== src/Programs/Upload/Taken.antt =====
-- A whole request of `main`: a form with one file.
use distributed_storage.Base.{
  ℕ, suc, ◌+◌, ◌<◌, ◌≡◌, refl, sym, some, [], ◌∷◌, ◌++◌, arith, length, drop, length-drop, pos,
  zero,
}
use distributed_storage.Clib.Copy.{length-zeros}
use distributed_storage.Clib.Exec.{done}
use distributed_storage.Clib.Strings.{Bytes, codes, zeros, padded}
use distributed_storage.FileInfo.{FileInfo, print}
use distributed_storage.Programs.Upload.{
  Request, Arrays, next, content_len, handle, with_len, with_buf, store, send_file, read_form,
}
use distributed_storage.Programs.Upload.Clean.{
  clean, clear-clean, read_form-whole, content_len-number,
}
use distributed_storage.Programs.Upload.Stored.{Named, Located, Listed, register-Listed}
use distributed_storage.RedisOp.Action.{◌>>=◌}
use distributed_storage.RedisOp.Hiredis.{Hiredis}
use distributed_storage.RoundTrip.{Upload}
use distributed_storage.Usefull.Storage.{get_buf}
use distributed_storage.Usefull.Storage.Answers.{Answers}
use distributed_storage.Usefull.Storage.Buffer.{get_buf-zeros}
use distributed_storage.Usefull.Storage.Client.{left_behind}
use distributed_storage.Usefull.Storage.Url.{file_url}
use distributed_storage.Usefull.System.{System}
use distributed_storage.Programs.Upload.Posted.{
  Posted, fdfs_client-Named, length-Named, length-array, length-padded, length-usr,
  upload_file-Posted, form-positive,
}

module _ (H : Hiredis) (S : System H.World) where
  open H use {World}

  -- What the system does for the request, one call behind the other: memory, the file, the upload, the
  -- file's end, and the search for its place.
  pub record Run (info : FileInfo) (bytes ip : Bytes) (len : ℕ) (w found : World) : Type 0 where
    pub allocated : World
    pub uploaded : World
    pub block : Bytes
    pub out_id : Bytes
    pub out_ip : Bytes
    pub gives : S.malloc (len + 1) w ≡ (some block, allocated)
    pub is_block : length block ≡ len + 1
    pub uploads : Answers S (S.save info.filename bytes allocated) out_id uploaded
    pub names : Named info.file_id out_id
    pub searches : Answers S (S.unlink info.filename uploaded) out_ip found
    pub locates : Located ip out_ip

module _ (H : Hiredis) (S : System H.World) (conn : H.Context) where
  open H use {World}

  with_len-pos :
      (req : Request) (n : ℕ) (s : Arrays) (w : World)
      → 0 < n
      → with_len H S req (pos n) s w ≡ (get_buf S n >>= λ buf. with_buf H S req n buf s) w
  unfolding with_len
  with_len-pos req zero s w lt = absurd (omega arith)
  with_len-pos req (suc n) s w lt = refl

  buffer-stored :
      (req : Request) (info : FileInfo) (bytes ip rd : Bytes) (w u w' : World)
      (sent : Posted req info bytes) (run : Run H S info bytes ip (length sent.form) w u)
      → Listed H S conn (print info) info.file_id u w'
      → Upload info req.create_time rd 1024
      → info.user ≡ codes "user"
      → info.url ≡ file_url ip info.file_id
      → length info.url < 256
      → with_buf H S req
          (length sent.form)
          (some (zeros (length sent.form + 1)))
          (record clean { usr = sent.usr })
          run.allocated
        ≡ done (next clean, w')
  unfolding with_buf store send_file
  buffer-stored req info bytes ip rd w u w' sent run told up is_user is_url url_fits =
      let form = sent.form in
      let n = length form in
      let filled : read_form n req.input (zeros (n + 1)) ≡ done (form ++ 0 ∷ []) =
        rw sent.is_input (read_form-whole form sent.more (zeros (n + 1)) (length-zeros (n + 1))) in
      let listed =
        register-Listed H S conn info req ip run.out_ip sent.block
          (left_behind S info.file_id run.out_id) (drop (suc (length info.filename)) (zeros 256)) rd
          sent.usr run.uploaded u w' sent.is_memory sent.is_block
          (length-usr req sent.usr sent.is_usr) up is_user run.locates is_url url_fits run.searches
          told in
      let cleared =
        clear-clean
          (record {
            filename = info.filename ++ 0 ∷ drop (suc (length info.filename)) (zeros 256);
            file_id = info.file_id ++ 0 ∷ left_behind S info.file_id run.out_id;
            fdfs_file_url = padded 256 info.url;
            usr = codes "user" ++ 0 ∷ drop 5 sent.usr;
          })
          (record {
            filename_size = length-array info.filename 256 sent.name_fits;
            file_id_size = length-Named S info.file_id run.out_id run.names;
            url_size = length-padded 256 info.url url_fits;
            usr_size = omega (arith, length-drop 5 sent.usr, length-usr req sent.usr sent.is_usr);
          }) in
      rw (
        filled,
        upload_file-Posted req info bytes sent,
        fdfs_client-Named S (info.filename ++ 0 ∷ drop (suc (length info.filename)) (zeros 256))
            info.file_id run.out_id (S.save info.filename bytes run.allocated) run.uploaded
            run.names run.uploads,
        listed,
        cleared,
      )

  -- A request whose form holds one file stores it: the file's bytes are saved under its name, uploaded to
  -- the storage, and the local file is removed; then the address is asked for, and the server gets the
  -- documented text of the file, with the user "user", and a count of its id. The main loop goes on with
  -- cleared arrays. The name, the id and the url fit into their arrays, the storage's programs and the
  -- server answer, and memory is given.
  pub handle-stored :
      (req : Request) (info : FileInfo) (bytes ip rd : Bytes) (w u w' : World)
      (sent : Posted req info bytes) (run : Run H S info bytes ip (length sent.form) w u)
      → Listed H S conn (print info) info.file_id u w'
      → Upload info req.create_time rd 1024
      → info.user ≡ codes "user"
      → info.url ≡ file_url ip info.file_id
      → length info.url < 256
      → handle H S req clean w ≡ done (next clean, w')
  unfolding handle
  handle-stored req info bytes ip rd w u w' sent run told up is_user is_url url_fits =
      let n = length sent.form in
      let len : content_len req.content_length ≡ done (pos n) =
        rw (sent.told_length, sym sent.is_length)
          (content_len-number sent.digits sent.behind_digits sent.are_digits
            (omega (arith, sent.is_length, sent.small))) in
      rw
        (
          sent.is_usr,
          len,
          with_len-pos req n (record clean { usr = sent.usr }) w
              (form-positive req info bytes sent),
          get_buf-zeros S n run.block w run.allocated sent.small run.gives run.is_block,
        )
        (buffer-stored req info bytes ip rd w u w' sent run told up is_user is_url url_fits)
