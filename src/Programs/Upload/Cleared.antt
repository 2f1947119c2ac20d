-- ===== src/Programs/Upload/Cleared.antt =====
-- What a request of `main` leaves to the next one.
use distributed_storage.Base.{
  ℕ, suc, zero, ◌≡◌, refl, ◌∙◌, Bool-cases, inl, inr, not, ℤ, pos, negsuc, Option, none, some, eq_ℤ,
  length, ◌⊎◌, minus_one,
}
use distributed_storage.Clib.Exec.{done}
use distributed_storage.Clib.Lengths.{length-strcpy}
use distributed_storage.Clib.Strings.{Bytes, codes, cstring, strcpy, text_of}
use distributed_storage.Programs.DataCgi.Sizes.{length-get_parameter}
use distributed_storage.Programs.Upload.{
  Request, Arrays, Outcome, next, returns, content_len, handle, with_len, with_buf, store,
  send_file, register, read_form, clear, save_file,
}
use distributed_storage.Programs.Upload.Clean.{IsSized, clean, clear-clean}
use distributed_storage.Programs.Upload.Sizes.{
  length-upload_file, fdfs_client-Ends, get_url-Ends, ArraySize,
}
use distributed_storage.RedisOp.Action.{◌>>=◌, lift, return}
use distributed_storage.RedisOp.Ends.{Ends, Ends-bind, Ends-lift, Ends-done}
use distributed_storage.RedisOp.Hiredis.{Hiredis}
use distributed_storage.Usefull.Query.{get_usr}
use distributed_storage.Usefull.Query.Value.{get_usr_zero}
use distributed_storage.Usefull.Storage.{fdfs_client, get_url, get_buf}
use distributed_storage.Usefull.System.{System}
use distributed_storage.Usefull.Upload.{upload_file}
use distributed_storage.Usefull.WriteRedis.{write_redis}

module _ (H : Hiredis) (S : System H.World) where
  open H use {World}

  abbrev Sized : Arrays → World → Type 0
  Sized s w = IsSized s

  register-IsSized :
      (req : Request) (s : Arrays) (w : World) → IsSized s → Ends Sized (register H S req s w)
  unfolding register
  register-IsSized req s w h = Ends-lift Sized (text_of s.filename) _ w λ path _.
      Ends-bind Sized (get_url S s.file_id s.fdfs_file_url) _ (S.unlink path w) λ url u e.
        Ends-lift Sized (strcpy s.usr (cstring (codes "user"))) _ u λ usr e'.
          Ends-bind Sized (write_redis H req.memory req.create_time s.file_id url.1 s.filename usr)
            _ u
            λ n v _. record {
              filename_size = h.filename_size;
              file_id_size = h.file_id_size;
              url_size =
                  Ends-done (ArraySize S (length s.fdfs_file_url))
                    (get_url S s.file_id s.fdfs_file_url (S.unlink path w)) url u
                    (get_url-Ends S s.file_id s.fdfs_file_url (S.unlink path w)) e
                  ∙ h.url_size;
              usr_size = length-strcpy s.usr (cstring (codes "user")) usr e' ∙ h.usr_size;
            }

  send_file-IsSized :
      (req : Request) (s : Arrays) (w : World) → IsSized s → Ends Sized (send_file H S req s w)
  unfolding send_file
  send_file-IsSized req s w h = Ends-bind Sized (fdfs_client S s.filename s.file_id) _ w λ sent u e.
      let size : length sent.1 ≡ 256 =
        Ends-done (ArraySize S (length s.file_id)) (fdfs_client S s.filename s.file_id w) sent u
          (fdfs_client-Ends S s.filename s.file_id w) e
        ∙ h.file_id_size in
      let ht : IsSized (record s { file_id = sent.1 }) = record {
        filename_size = h.filename_size;
        file_id_size = size;
        url_size = h.url_size;
        usr_size = h.usr_size;
      } in
      elim (Bool-cases (not (eq_ℤ sent.0 (pos 0)))) [
        | inl failed ↦ rw failed ht
        | inr fine ↦ rw fine (register-IsSized req (record s { file_id = sent.1 }) u ht)
      ]

  store-IsSized :
      (req : Request) (buf : Bytes) (len : ℕ) (s : Arrays) (w : World)
      → IsSized s
      → Ends Sized (store H S req buf len s w)
  unfolding store
  store-IsSized req buf len s w h =
      Ends-lift Sized (upload_file buf len s.filename req.can_open) _ w λ made e.
        Ends-bind Sized (save_file H S made.2) _ w λ x u _.
          let ht : IsSized (record s { filename = made.1 }) = record {
            filename_size =
                length-upload_file buf len s.filename req.can_open made e ∙ h.filename_size;
            file_id_size = h.file_id_size;
            url_size = h.url_size;
            usr_size = h.usr_size;
          } in
          elim (Bool-cases (not (eq_ℤ made.0 (pos 0)))) [
            | inl failed ↦ rw failed ht
            | inr fine ↦ rw fine (send_file-IsSized req (record s { filename = made.1 }) u ht)
          ]

  -- The arrays are left cleared, or there was no memory for the form.
  abbrev LeavesClean : Outcome → World → Type 0
  LeavesClean o w = (o ≡ next clean) ⊎ (o ≡ returns minus_one)

  clear-LeavesClean :
      (s : Arrays) (w : World)
      → IsSized s
      → Ends LeavesClean ((lift (clear s) >>= λ cleared. return (next cleared)) w)
  clear-LeavesClean s w h = rw (clear-clean s h) (inl refl)

  with_buf-LeavesClean :
      (req : Request) (len : ℕ) (buf : Option Bytes) (s : Arrays) (w : World)
      → IsSized s
      → Ends LeavesClean (with_buf H S req len buf s w)
  unfolding with_buf
  with_buf-LeavesClean req len none s w h = inr refl
  with_buf-LeavesClean req len (some buf) s w h =
      Ends-lift LeavesClean (read_form len req.input buf) _ w λ form _.
        Ends-bind LeavesClean (store H S req form len s) _ w λ t u e.
          clear-LeavesClean t u
            (Ends-done Sized (store H S req form len s w) t u (store-IsSized req form len s w h) e)

  with_len-LeavesClean :
      (req : Request) (len : ℤ) (s : Arrays) (w : World)
      → IsSized s
      → Ends LeavesClean (with_len H S req len s w)
  unfolding with_len
  with_len-LeavesClean req (pos zero) s w h = clear-LeavesClean s w h
  with_len-LeavesClean req (negsuc n) s w h = clear-LeavesClean s w h
  with_len-LeavesClean req (pos (suc n)) s w h =
      Ends-bind LeavesClean (get_buf S (suc n)) _ w
        λ buf u _. with_buf-LeavesClean req (suc n) buf s u h

  handle-LeavesClean :
      (req : Request) (s : Arrays) (w : World) → IsSized s → Ends LeavesClean (handle H S req s w)
  unfolding handle get_usr
  handle-LeavesClean req s w h = Ends-lift LeavesClean (get_usr req.query_string s.usr) _ w λ usr e.
      let ht : IsSized (record s { usr = usr.1 }) = record {
        filename_size = h.filename_size;
        file_id_size = h.file_id_size;
        url_size = h.url_size;
        usr_size =
            length-get_parameter (codes "user") req.query_string s.usr usr.1 usr.0 e ∙ h.usr_size;
      } in
      let zero_result : usr.0 ≡ pos 0 = get_usr_zero req.query_string s.usr usr.1 usr.0 e in
      rw zero_result (
        Ends-lift LeavesClean (content_len req.content_length) _ w
          λ len _. with_len-LeavesClean req len (record s { usr = usr.1 }) w ht)

  -- A request that ends, by whatever path, leaves the arrays cleared to the next one, or ends `main` with -1:
  -- without a body, with a file that could not be opened, sent or located, or with one that was stored
  -- they are cleared; the test of what `get_usr` returns never ends the loop. The arrays had the declared
  -- sizes.
  pub handle-outcomes :
      (req : Request) (s : Arrays) (o : Outcome) (w u : World)
      → IsSized s
      → handle H S req s w ≡ done (o, u)
      → (o ≡ next clean) ⊎ (o ≡ returns minus_one)
  handle-outcomes req s o w u h e =
      Ends-done LeavesClean (handle H S req s w) o u (handle-LeavesClean req s w h) e
