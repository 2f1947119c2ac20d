-- ===== src/Programs/Upload/AnyRequest.antt =====
-- What any request of `main` does to the list and the scores on the server.
use distributed_storage.Base.{
  ℕ, zero, suc, ◌+◌, ◌≡◌, ◌⊎◌, inl, inr, refl, Bool-cases, not, if◌then◌else◌, ℤ, pos, negsuc, eq_ℤ,
  ltb_ℤ, Option, some, none, Option-cases, leb,
}
use distributed_storage.Clib.Chars.{int_max}
use distributed_storage.Clib.Exec.{done, fault}
use distributed_storage.Clib.Strings.{Bytes, codes, cstring, strcpy, text_of, memset}
use distributed_storage.Programs.Upload.{
  Request, Arrays, Outcome, next, content_len, handle, with_len, with_buf, store, send_file,
  register, read_form, clear, save_file,
}
use distributed_storage.Programs.Upload.Processes.{
  Kept, SameAs, and, fdfs_client-SameAs, get_url-SameAs,
}
use distributed_storage.RedisOp.Action.{◌>>=◌, lift, return}
use distributed_storage.RedisOp.Ends.{Ends, Ends-lift, Ends-then, Ends-done}
use distributed_storage.RedisOp.Hiredis.{Hiredis}
use distributed_storage.Shelf.{ServerLaws}
use distributed_storage.Shelf.Apart.{Apart}
use distributed_storage.Shelf.Connects.{Keeps}
use distributed_storage.Usefull.Query.{get_usr}
use distributed_storage.Usefull.Storage.{fdfs_client, get_url, get_buf}
use distributed_storage.Usefull.System.{System}
use distributed_storage.Usefull.Upload.{upload_file}
use distributed_storage.Usefull.WriteRedis.{write_redis}
use distributed_storage.Programs.Upload.Grows.{Added, write_redis-Grows}

module _ (H : Hiredis) (S : System H.World) (conn : H.Context) (laws : ServerLaws H conn)
    (apart : Apart H S conn laws)
    (only : (ip : Bytes) (port : ℕ) (w : H.World) (c : H.Context)
      → (H.connect ip port w).0 ≡ some c
      → c ≡ conn)
    (start : H.World) where
  open H use {World}

  abbrev Grows : {A : Type 0} → A → World → Type 0
  Grows a u = Kept H S conn laws apart start u ⊎ Added H S conn laws apart only start u

  abbrev Same : {A : Type 0} → A → World → Type 0
  Same a u = SameAs H S conn laws apart start a u

  abbrev then_ : {u v : World} → Same tt u → Keeps H conn laws u v → Same tt v
  then_ first second = and H S conn laws apart start first second

  register-Grows :
      (req : Request) (s : Arrays) (w : World) → Same tt w → Ends Grows (register H S req s w)
  unfolding register
  register-Grows req s w same = Ends-lift Grows (text_of s.filename) _ w λ path _.
      Ends-then Same Grows (get_url S s.file_id s.fdfs_file_url) _ (S.unlink path w)
        (get_url-SameAs H S conn laws apart start s.file_id s.fdfs_file_url (S.unlink path w)
          (then_ same (apart.unlink path w)))
        λ url u kept. Ends-lift Grows (strcpy s.usr (cstring (codes "user"))) _ u λ usr _.
          Ends-then Grows Grows
            (write_redis H req.memory req.create_time s.file_id url.1 s.filename usr) _ u
            (write_redis-Grows H S conn laws apart only start req.memory req.create_time s.file_id
              url.1 s.filename usr u kept)
            λ n v grows. grows

  send_file-Grows :
      (req : Request) (s : Arrays) (w : World) → Same tt w → Ends Grows (send_file H S req s w)
  unfolding send_file
  send_file-Grows req s w same =
      Ends-then Same Grows (fdfs_client S s.filename s.file_id) _ w
        (fdfs_client-SameAs H S conn laws apart start s.filename s.file_id w same)
        λ sent u kept. elim (Bool-cases (not (eq_ℤ sent.0 (pos 0)))) [
          | inl failed ↦ rw failed (inl kept)
          | inr fine ↦ rw fine (register-Grows req (record s { file_id = sent.1 }) u kept)
        ]

  store-Grows :
      (req : Request) (buf : Bytes) (len : ℕ) (s : Arrays) (w : World)
      → Same tt w
      → Ends Grows (store H S req buf len s w)
  unfolding store
  store-Grows req buf len s w same =
      Ends-lift Grows (upload_file buf len s.filename req.can_open) _ w λ made _.
        Ends-then Same Grows (save_file H S made.2) _ w (saved made.2) λ x u kept.
          elim (Bool-cases (not (eq_ℤ made.0 (pos 0)))) [
            | inl failed ↦ rw failed (inl kept)
            | inr fine ↦ rw fine (send_file-Grows req (record s { filename = made.1 }) u kept)
          ]
    where
      saved : (file : Option (Bytes × Bytes)) → Ends Same (save_file H S file w)
      saved none = same
      saved (some file) = then_ same (apart.save file.0 file.1 w)

  clear-Grows :
      (s : Arrays) (w : World)
      → Grows tt w
      → Ends Grows ((lift (clear s) >>= λ cleared. return (next cleared)) w)
  clear-Grows s w grows =
      Ends-lift Grows (clear s) (λ cleared. return (next cleared)) w λ c _. grows

  with_buf-Grows :
      (req : Request) (len : ℕ) (buf : Option Bytes) (s : Arrays) (w : World)
      → Same tt w
      → Ends Grows (with_buf H S req len buf s w)
  unfolding with_buf
  with_buf-Grows req len none s w same = inl same
  with_buf-Grows req len (some buf) s w same =
      Ends-lift Grows (read_form len req.input buf) _ w λ form _.
        Ends-then Grows Grows (store H S req form len s) _ w (store-Grows req form len s w same)
          λ t u grows. clear-Grows t u grows

  get_buf-Same : (len : ℕ) (w : World) → Same tt w → Ends Same (get_buf S len w)
  unfolding get_buf
  get_buf-Same len w same =
      Ends-lift Same (if leb int_max len then fault else done (len + 1)) _ w λ size _.
        let kept = then_ same (apart.malloc size w) in
        elim (Option-cases (S.malloc size w).0) [
          | inl refused ↦ rw refused kept
          | inr (b, given) ↦
              rw given (Ends-lift Same (memset b size) _ (S.malloc size w).1 λ buf _. kept)
        ]

  with_len-Grows :
      (req : Request) (len : ℤ) (s : Arrays) (w : World)
      → Same tt w
      → Ends Grows (with_len H S req len s w)
  unfolding with_len
  with_len-Grows req (pos zero) s w same = clear-Grows s w (inl same)
  with_len-Grows req (negsuc n) s w same = clear-Grows s w (inl same)
  with_len-Grows req (pos (suc n)) s w same =
      Ends-then Same Grows (get_buf S (suc n)) _ w (get_buf-Same (suc n) w same)
        λ buf u kept. with_buf-Grows req (suc n) buf s u kept

  handle-Ends :
      (req : Request) (s : Arrays) (w : World) → Same tt w → Ends Grows (handle H S req s w)
  unfolding handle
  handle-Ends req s w same = Ends-lift Grows (get_usr req.query_string s.usr) _ w λ usr _.
      elim (Bool-cases (ltb_ℤ usr.0 (pos 0))) [
        | inl negative ↦ rw negative (inl same)
        | inr fine ↦ rw fine (
            Ends-lift Grows (content_len req.content_length) _ w
              λ len _. with_len-Grows req len (record s { usr = usr.1 }) w same)
      ]

module _ (H : Hiredis) (S : System H.World) (conn : H.Context) (laws : ServerLaws H conn)
    (apart : Apart H S conn laws)
    (only : (ip : Bytes) (port : ℕ) (w : H.World) (c : H.Context)
      → (H.connect ip port w).0 ≡ some c
      → c ≡ conn) where
  open H use {World}

  -- Whatever a request is, and by whatever path it ends, it leaves the list and the scores on the server as
  -- they were, or it puts one value in front of the list and counts one visit: no request that ends
  -- removes or changes a file. The system's calls and the storage's programs
  -- keep what the server holds, and a connection is the one that the laws are about.
  pub handle-Grows :
      (req : Request) (s : Arrays) (o : Outcome) (w u : World)
      → handle H S req s w ≡ done (o, u)
      → Keeps H conn laws w u ⊎ Added H S conn laws apart only w u
  handle-Grows req s o w u e =
      Ends-done (Grows H S conn laws apart only w) (handle H S req s w) o u
        (handle-Ends H S conn laws apart only w req s w (refl, λ m. refl)) e
