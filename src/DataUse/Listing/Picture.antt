-- ===== src/DataUse/Listing/Picture.antt =====
-- The address of a picture in the list: the front of the file's url, a directory, and a name that is
-- made of the file's suffix.
use distributed_storage.Base.{
  Bool-cases, inl, inr, ltb, ltb→lt, ltb→le, if◌then◌else◌, suc, ◌+◌, ◌<◌, ◌≤◌, ◌≡◌, [], ◌∷◌, ◌++◌,
  length, drop, arith, All-append, length-append, ◌≢◌,
}
use distributed_storage.Clib.Exec.{done, fault}
use distributed_storage.Clib.Strings.{Bytes, IsText, codes, cstring, padded, zeros, strcat}
use distributed_storage.Clib.Copy.{strcat-padded, strcpy-text, strcpy-fault}
use distributed_storage.Clib.First.{Absent}
use distributed_storage.Clib.Search.{text_of-text}
use distributed_storage.DataUse.IpUrl.Prefix.{group, get_ip_url-host}
use distributed_storage.DataUse.Listing.{Scratch, make_picurl}
use distributed_storage.Usefull.Suffix.Spec.{
  suffix_of, suffix_of-IsText, put, get_file_suffix-suffix_of,
}

abbrev pub directory : Bytes
directory = codes "/static/file_png/"

abbrev pub png_name : Bytes → Bytes
png_name filename = suffix_of filename ++ codes ".png"

module _ (host rest filename rf : Bytes) (s : Scratch) (th : IsText host) (tf : IsText filename)
    (first : Absent group (host ++ (group ++ rest)) (length host))
    (ip_room : length host < length s.get_ip_buf)
    (suffix_room : length (suffix_of filename) < length s.suffix)
    (short : length host + 17 < 256) where
  host_copied :
      strcat (zeros 256) (host ++ 0 ∷ drop (suc (length host)) s.get_ip_buf)
      ≡ done (padded 256 host)
  host_copied =
      strcat-padded 256 [] host (drop (suc (length host)) s.get_ip_buf) tt th (omega arith)

  directory_copied :
      strcat (padded 256 host) (cstring directory) ≡ done (padded 256 (host ++ directory))
  directory_copied = strcat-padded 256 host directory [] th (omega arith) (omega arith)

  png_name-IsText : IsText (png_name filename)
  png_name-IsText =
      All-append (λ c. c ≢ 0) (suffix_of filename) (codes ".png") (suffix_of-IsText filename tf)
        (omega arith)

  -- The address is the url's part in front of the first "/group", the directory of the pictures, and
  -- the suffix of the file's name with ".png" behind it, provided it fits into its 256 bytes, the
  -- name into its array, and the front and the suffix into theirs, whatever these arrays held.
  pub make_picurl-png_name :
      length (png_name filename) < length s.pic_name
      → length host + 17 + length (png_name filename) < 256
      → make_picurl s (host ++ (group ++ rest)) (filename ++ 0 ∷ rf)
        ≡ done (
          padded 256 ((host ++ directory) ++ png_name filename),
          record {
            suffix = put s.suffix (suffix_of filename);
            pic_name = put s.pic_name (png_name filename);
            get_ip_buf = put s.get_ip_buf host;
          },
        )
  unfolding make_picurl
  make_picurl-png_name name_room fits =
      let sfx = suffix_of filename in
      let name = png_name filename in
      let front = All-append (λ c. c ≢ 0) host directory th (omega arith) in
      let last =
        strcat-padded 256 (host ++ directory) name (drop (suc (length name)) s.pic_name) front
          png_name-IsText (omega (arith, length-append host directory)) in
      rw (
        get_ip_url-host host rest s.get_ip_buf th first ip_room,
        host_copied,
        directory_copied,
        get_file_suffix-suffix_of filename rf s.suffix tf suffix_room,
        text_of-text sfx (drop (suc (length sfx)) s.suffix) (suffix_of-IsText filename tf),
        strcpy-text name [] s.pic_name png_name-IsText name_room,
        last,
      )

  -- A suffix that its own array of 8 bytes holds can still be too long for the array of the name, which
  -- has 10: `sprintf` then writes past its end.
  pub make_picurl-overflow :
      length s.pic_name ≤ length (png_name filename)
      → make_picurl s (host ++ (group ++ rest)) (filename ++ 0 ∷ rf) ≡ fault
  unfolding make_picurl
  make_picurl-overflow over =
      let sfx = suffix_of filename in
      rw (
        get_ip_url-host host rest s.get_ip_buf th first ip_room,
        host_copied,
        directory_copied,
        get_file_suffix-suffix_of filename rf s.suffix tf suffix_room,
        text_of-text sfx (drop (suc (length sfx)) s.suffix) (suffix_of-IsText filename tf),
        strcpy-fault (png_name filename) [] s.pic_name png_name-IsText over,
      )

  -- The address is the url's part in front of the first "/group", the directory of the pictures, and
  -- the suffix of the file's name with ".png" behind it, if the name fits into its array, which has
  -- 10 bytes. A suffix that its own array of 8 bytes holds can still be too long for it: `sprintf`
  -- then writes past its end. The address fits into its 256 bytes, the front and the suffix into their
  -- arrays, whatever these held.
  pub make_picurl_bounds :
      length host + 17 + length (png_name filename) < 256
      → make_picurl s (host ++ (group ++ rest)) (filename ++ 0 ∷ rf) ≡ (
          if ltb (length (png_name filename)) (length s.pic_name)
          then done (
            padded 256 ((host ++ directory) ++ png_name filename),
            record {
              suffix = put s.suffix (suffix_of filename);
              pic_name = put s.pic_name (png_name filename);
              get_ip_buf = put s.get_ip_buf host;
            },
          )
          else fault)
  make_picurl_bounds fits =
      let n = length (png_name filename) in
      elim (Bool-cases (ltb n (length s.pic_name))) [
        | inl room ↦ rw room (make_picurl-png_name (ltb→lt n (length s.pic_name) room) fits)
        | inr over ↦ rw over (make_picurl-overflow (ltb→le n (length s.pic_name) over))
      ]
