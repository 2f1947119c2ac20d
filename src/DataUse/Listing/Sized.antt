-- ===== src/DataUse/Listing/Sized.antt =====
-- The arrays that are used for one file after the other keep their sizes.
use distributed_storage.Base.{
  suc, ◌<◌, ◌≡◌, ◌∙◌, ◌∷◌, length, drop, arith, length-append, length-drop,
}
use distributed_storage.Clib.Strings.{Bytes}
use distributed_storage.DataUse.Listing.{Scratch, scratch}
use distributed_storage.DataUse.Listing.Item.{IsListed, used}
use distributed_storage.FileInfo.{FileInfo}
use distributed_storage.Usefull.Suffix.Spec.{suffix_of, put}

-- The scratch arrays have their sizes.
abbrev pub SameSizes : Scratch → Type 0
SameSizes s = (length s.suffix ≡ 8) × (length s.pic_name ≡ 10) × (length s.get_ip_buf ≡ 256)

pub IsListed-sized :
    (info : FileInfo) (host rest : Bytes) (s : Scratch)
    → SameSizes s
    → IsListed info host rest scratch
    → IsListed info host rest s
IsListed-sized info host rest s same ok = record {
  stored = ok.stored;
  url_split = ok.url_split;
  host_text = ok.host_text;
  first = ok.first;
  file_id_room = ok.file_id_room;
  url_room = ok.url_room;
  filename_room = ok.filename_room;
  create_time_room = ok.create_time_room;
  user_room = ok.user_room;
  ip_room = omega (arith, ok.ip_room, same);
  suffix_room = omega (arith, ok.suffix_room, same);
  pic_name_room = omega (arith, ok.pic_name_room, same);
  picurl_room = ok.picurl_room;
}

length-put : (buf t : Bytes) → length t < length buf → length (put buf t) ≡ length buf
length-put buf t lt =
    omega (arith, length-append t (0 ∷ drop (suc (length t)) buf), length-drop (suc (length t)) buf)

pub used-SameSizes :
    (info : FileInfo) (host rest : Bytes) (s : Scratch)
    → SameSizes s
    → IsListed info host rest s
    → SameSizes (used info host s)
used-SameSizes info host rest s same ok = (
  length-put s.suffix (suffix_of info.filename) ok.suffix_room ∙ same.0,
  length-put s.pic_name _ ok.pic_name_room ∙ same.1,
  length-put s.get_ip_buf host ok.ip_room ∙ same.2,
)
