-- ===== src/DataUse/Listing/Item.antt =====
-- What the list shows of one file: the row that `write_redis` stored, read field by field.
use distributed_storage.Base.{
  ℕ, ◌+◌, ◌-◌, ◌<◌, ◌≤◌, ◌≡◌, ap, ◌∙◌, ◌∷◌, ◌++◌, length, arith, pos, ℤ, ◌-ℤ◌, append_assoc,
  All-append, length-append, ◌≢◌,
}
use distributed_storage.Clib.Chars.{int_of}
use distributed_storage.Clib.Exec.{done}
use distributed_storage.Clib.Strings.{Bytes, IsText, codes, padded, zeros, text_of}
use distributed_storage.Clib.Copy.{padded-suc}
use distributed_storage.Clib.First.{Absent}
use distributed_storage.Clib.Search.{text_of-text}
use distributed_storage.DataUse.Fields.{get_value_by_redis}
use distributed_storage.DataUse.Fields.RoundTrip.{get_value_by_redis-print}
use distributed_storage.DataUse.IpUrl.Prefix.{group}
use distributed_storage.DataUse.Listing.{CJson, Scratch, make_item, make_picurl}
use distributed_storage.DataUse.Listing.Picture.{directory, png_name, make_picurl-png_name}
use distributed_storage.FileInfo.{FileInfo, print, field, IsStored}
use distributed_storage.FileInfo.Separators.{IsClean-IsText}
use distributed_storage.RedisOp.Hiredis.{Hiredis}
use distributed_storage.RedisOp.Values.{rop_zset_get_score}
use distributed_storage.Usefull.Suffix.Spec.{suffix_of, suffix_of-IsText, put}

-- A file whose fields fit into their arrays, with a url of `host`, "/group" and `rest`.
pub record IsListed (info : FileInfo) (host rest : Bytes) (s : Scratch) : Type 0 where
  pub stored : IsStored info
  pub url_split : info.url ≡ host ++ (group ++ rest)
  pub host_text : IsText host
  pub first :
      Absent group (host ++ (group ++ (rest ++ zeros (256 - length info.url)))) (length host)
  pub file_id_room : length info.file_id < 256
  pub url_room : length info.url < 256
  pub filename_room : length info.filename < 256
  pub create_time_room : length info.create_time < 64
  pub user_room : length info.user < 128
  pub ip_room : length host < length s.get_ip_buf
  pub suffix_room : length (suffix_of info.filename) < length s.suffix
  pub pic_name_room : length (png_name info.filename) < length s.pic_name
  pub picurl_room : length host + 17 + length (png_name info.filename) < 256

-- The entry of the list.
abbrev pub entry : (C : CJson) → FileInfo → Bytes → ℤ → C.Json
entry C info host score =
    let a = C.add_string C.create_object (codes "id") info.file_id in
    let b = C.add_string (C.add_number a (codes "kind") (pos 2)) (codes "title_m") info.filename in
    let c = C.add_string b (codes "title_s") info.user in
    let d = C.add_string c (codes "descrip") info.create_time in
    let e = C.add_string d (codes "url") info.url in
    let f = C.add_string e (codes "picurl_m") ((host ++ directory) ++ png_name info.filename) in
    C.add_number (C.add_number f (codes "pv") (score -ℤ pos 1)) (codes "hot") (pos 0)

abbrev pub used : FileInfo → Bytes → Scratch → Scratch
used info host s = record {
  suffix = put s.suffix (suffix_of info.filename);
  pic_name = put s.pic_name (png_name info.filename);
  get_ip_buf = put s.get_ip_buf host;
}

text_of-padded :
    (size : ℕ) (t : Bytes) → IsText t → length t < size → text_of (padded size t) ≡ done t
text_of-padded size t h lt =
    rw (padded-suc size t lt) (text_of-text t (zeros (size - length t - 1)) h)

address-IsText :
    (host filename : Bytes)
    → IsText host
    → IsText filename
    → IsText ((host ++ directory) ++ png_name filename)
address-IsText host filename th tf =
    All-append (λ c. c ≢ 0) (host ++ directory) (png_name filename)
      (All-append (λ c. c ≢ 0) host directory th (omega arith))
      (All-append (λ c. c ≢ 0) (suffix_of filename) (codes ".png") (suffix_of-IsText filename tf)
        (omega arith))

module _ (H : Hiredis) (C : CJson) (conn : H.Context) (info : FileInfo) (host rest r : Bytes)
    (s : Scratch) (ok : IsListed info host rest s) where
  read :
      (k size : ℕ)
      → 10 ≤ size
      → 1 ≤ k
      → k ≤ 6
      → length (field info k) < size
      → size ≤ 256
      → get_value_by_redis (print info ++ 0 ∷ r) (pos k) (zeros size) 1023
        ≡ done (pos 0, padded size (field info k))
  read k size ten lo hi room small =
      get_value_by_redis-print info r k size 1023 ok.stored ten lo hi room (omega arith)

  picture :
      make_picurl s (padded 256 info.url) (padded 256 info.filename)
      ≡ done (padded 256 ((host ++ directory) ++ png_name info.filename), used info host s)
  picture =
      let text = IsClean-IsText info.filename ok.stored.fields.1.1.0 in
      let short : length host + 17 < 256 = omega (arith, ok.picurl_room) in
      let tail = zeros (256 - length info.url) in
      let url : padded 256 info.url ≡ host ++ (group ++ (rest ++ tail)) =
        ap (λ u. u ++ tail) ok.url_split ∙ append_assoc host (group ++ rest) tail in
      rw (url, padded-suc 256 info.filename ok.filename_room)
        (make_picurl-png_name host (rest ++ tail) info.filename
          (zeros (256 - length info.filename - 1)) s ok.host_text text ok.first ok.ip_room
          ok.suffix_room short ok.pic_name_room ok.picurl_room)

  -- Of a row in the documented format, whose fields fit into their arrays, the list shows the file's id,
  -- name, user, time and url as they were stored, the picture's address, and one less than the
  -- score that `rop_zset_get_score` gives for the file's id, which is -2 where it gives -1. The difference is
  -- an `int`.
  pub make_item-entry :
      (w w' : H.World) (score : ℤ)
      → rop_zset_get_score H conn (codes "FILE_HOT_ZSET") info.file_id w ≡ done (score, w')
      → int_of (score -ℤ pos 1) ≡ done (score -ℤ pos 1)
      → make_item H C conn (print info ++ 0 ∷ r) s w
        ≡ done ((entry C info host score, used info host s), w')
  unfolding make_item
  make_item-entry w w' score counted small =
      let texts = ok.stored.fields in
      let address = (host ++ directory) ++ png_name info.filename in
      let address_text =
        address-IsText host info.filename ok.host_text (IsClean-IsText info.filename texts.1.1.0) in
      let fits : length address < 256 = omega (
        arith,
        ok.picurl_room,
        length-append (host ++ directory) (png_name info.filename),
        length-append host directory,
      ) in
      rw (
        read 1 256 (omega arith) (omega arith) (omega arith) ok.file_id_room (omega arith),
        text_of-padded 256 info.file_id (IsClean-IsText info.file_id texts.0) ok.file_id_room,
        read 3 256 (omega arith) (omega arith) (omega arith) ok.filename_room (omega arith),
        text_of-padded 256 info.filename (IsClean-IsText info.filename texts.1.1.0)
            ok.filename_room,
        read 5 128 (omega arith) (omega arith) (omega arith) ok.user_room (omega arith),
        text_of-padded 128 info.user (IsClean-IsText info.user texts.1.1.1.1.0) ok.user_room,
        read 4 64 (omega arith) (omega arith) (omega arith) ok.create_time_room (omega arith),
        text_of-padded 64 info.create_time (IsClean-IsText info.create_time texts.1.1.1.0)
            ok.create_time_room,
        read 2 256 (omega arith) (omega arith) (omega arith) ok.url_room (omega arith),
        text_of-padded 256 info.url (IsClean-IsText info.url texts.1.0) ok.url_room,
        picture,
        text_of-padded 256 address address_text fits,
        counted,
        small,
      )
