-- ===== src/Shelf/Scores.antt =====
-- `read_redis_to_json` against any shelf, also one that has a file whose visits were never counted.
use distributed_storage.Base.{
  minus_one, ℤ, ℕ, zero, suc, ◌+◌, ◌-◌, ◌≤◌, ◌<◌, ◌≡◌, refl, ap, ◌∙◌, some, List, [], ◌∷◌, ◌++◌,
  map, length, take, drop, pos, ◌+ℤ◌, ◌-ℤ◌, ◌*◌, if◌then◌else◌, All, arith, min, take-map, drop-map,
  length-map, take-min, sub-zero, add-zero, All-take, length-take, Bool, Bool-cases, inl, inr, ltb,
  leb, le→leb, true, append_assoc,
}
use distributed_storage.Clib.Chars.{int_max, int_of, int_of-pos}
use distributed_storage.Clib.Copy.{padded-suc}
use distributed_storage.Clib.Exec.{done, fault}
use distributed_storage.Clib.Print.{sprintf}
use distributed_storage.Clib.Strings.{Bytes, IsText, codes, zeros, padded, starts_with}
use distributed_storage.DataUse.IpUrl.Prefix.{group}
use distributed_storage.DataUse.Listing.{
  CJson, Scratch, scratch, make_items, list_files, read_redis_to_json, times,
}
use distributed_storage.DataUse.Listing.Sized.{SameSizes, IsListed-sized, used-SameSizes}
use distributed_storage.DataUse.Listing.Item.{IsListed, entry, used, make_item-entry}
use distributed_storage.FileInfo.{FileInfo, print, front}
use distributed_storage.FileInfo.Separators.{IsClean-IsText, fields_text-IsText}
use distributed_storage.RedisOp.Connect.{rop_connectdb_nopwd, rop_disconnect}
use distributed_storage.RedisOp.Hiredis.{Hiredis}
use distributed_storage.RedisOp.Keys.{rop_test_reply_type}
use distributed_storage.RedisOp.Values.{rop_zset_get_score, values_id_size}
use distributed_storage.RedisOp.Values.Replies.{IsValue, IsRow, written, rop_range_list-rows}
use distributed_storage.Shelf.{Shelf, ServerLaws, Holds, list_key, hot_key}
use distributed_storage.Shelf.Connects.{connected-Holds}

-- What stands in front of the first "/group" of a url.
unfoldable pub host_of : Bytes → Bytes
host_of [] = []
host_of (c ∷ s) = let rest = host_of s in if starts_with group (c ∷ s) then [] else c ∷ rest

-- A file whose fields fit into the arrays of the list, visited not too often.
pub record IsPresentable (shelf : Shelf) (info : FileInfo) : Type 0 where
  pub rest : Bytes
  pub is_listed : IsListed info (host_of info.url) rest scratch
  pub fits : length (print info) < 1023
  pub bounded : shelf.visits info.file_id ≤ int_max

-- What `rop_zset_get_score` gives for that many visits: the sorted set lacks an id that was never counted.
abbrev pub score_of : ℕ → ℤ
score_of zero = minus_one
score_of (suc n) = pos (suc n)

-- The array of the entries, and the page, from the scores of the ids.
abbrev pub entries : (C : CJson) → (Bytes → ℤ) → List FileInfo → C.Json → C.Json
entries C score [] array = array
entries C score (info ∷ infos) array =
    entries C score infos
      (C.add_item_to_array array (entry C info (host_of info.url) (score info.file_id)))

abbrev pub page_of : CJson → (Bytes → ℤ) → List FileInfo → Bytes
page_of C score infos =
    C.print
      (C.add_item_to_object C.create_object (codes "games") (entries C score infos C.create_array))

-- Does the array of the log have room for the line with the page?
abbrev pub fits_log : Bytes → Bool
fits_log out = ltb (length (codes "out = " ++ out)) 4096

print-IsText :
    (info : FileInfo) (host rest : Bytes) (s : Scratch)
    → IsListed info host rest s
    → IsText (print info)
print-IsText info host rest s ok =
    fields_text-IsText (front info) info.kind ok.stored.fields
      (IsClean-IsText info.kind ok.stored.kind_clean)

-- One less than a score is an `int`.
int_of-score : (n : ℕ) → n ≤ int_max → int_of (score_of n -ℤ pos 1) ≡ done (score_of n -ℤ pos 1)
int_of-score zero hi = unfold int_of in refl
int_of-score (suc n) hi =
    let one : leb 1 (suc n + 0) ≡ true = le→leb 1 (suc n + 0) (omega arith) in
    rw one (int_of-pos (suc n + 0 - 1) (omega arith))

module _ (H : Hiredis) (C : CJson) (conn : H.Context) (laws : ServerLaws H conn)
    (shelf : Shelf) where
  abbrev pub score : Bytes → ℤ
  score id = score_of (shelf.visits id)

  get_score-counted :
      (id : Bytes) (n : ℕ) (w : H.World)
      → laws.scores w id ≡ n
      → n ≤ int_max
      → rop_zset_get_score H conn hot_key id w ≡ done (score_of n, w)
  unfolding rop_zset_get_score rop_test_reply_type
  get_score-counted id zero w same hi =
      let (reply, run, type) = laws.no_score id w same in rw (run, type)
  get_score-counted id (suc n) w same hi =
      let (reply, digits, run, type, str, value) =
        laws.score id w (omega (arith, same)) (omega (arith, same)) in
      rw (run, type, str, value, same)

  make_items-entries :
      (n : ℕ) (infos : List FileInfo) (memory : List Bytes) (s : Scratch) (array : C.Json)
      (w : H.World)
      → All (IsPresentable shelf) (take n infos)
      → n ≤ length infos
      → n ≤ length memory
      → SameSizes s
      → Holds H conn laws shelf w
      → make_items H C conn n (written n (map print infos) memory) s array w
        ≡ done (entries C score (take n infos) array, w)
  unfolding make_items written
  make_items-entries zero infos memory s array w shown hi hm same held = refl
  make_items-entries (suc n) [] memory s array w shown hi hm same held = absurd (omega arith)
  make_items-entries (suc n) (info ∷ infos) [] s array w shown hi hm same held =
      absurd (omega arith)
  make_items-entries (suc n) (info ∷ infos) (row ∷ memory) s array w shown hi hm same held =
      let (is, later) = shown in
      let ok = IsListed-sized info (host_of info.url) is.rest s same is.is_listed in
      let zs = zeros (1023 - length (print info) - 1) in
      let stored : padded 1023 (print info) ++ drop 1023 row
          ≡ print info ++ 0 ∷ (zs ++ drop 1023 row) =
        ap (λ t. t ++ drop 1023 row) (padded-suc 1023 (print info) is.fits)
        ∙ append_assoc (print info) (0 ∷ zs) (drop 1023 row) in
      let made =
        make_item-entry H C conn info (host_of info.url) is.rest (zs ++ drop 1023 row) s ok w w
          (score info.file_id)
          (get_score-counted info.file_id (shelf.visits info.file_id) w (held.visits info.file_id)
            is.bounded)
          (int_of-score (shelf.visits info.file_id) is.bounded) in
      rw (stored, made)
        (make_items-entries n infos memory (used info (host_of info.url) s)
          (C.add_item_to_array array (entry C info (host_of info.url) (score info.file_id))) w later
          (omega arith) (omega arith) (used-SameSizes info (host_of info.url) is.rest s same ok)
          held)

  are_values :
      (infos : List FileInfo) → All (IsPresentable shelf) infos → All IsValue (map print infos)
  are_values [] shown = tt
  are_values (info ∷ infos) (is, later) = (
    (print-IsText info (host_of info.url) is.rest scratch is.is_listed, omega (arith, is.fits)),
    are_values infos later,
  )

  module _ (from cnt : ℕ) (some_files : 1 ≤ cnt) (last_fits : from + cnt ≤ int_max)
      (rows_fit : cnt * 1024 ≤ int_max)
      (shown : All (IsPresentable shelf) (take cnt (drop from shelf.files))) where
    -- The last index, which `rop_range_list` takes for a number.
    abbrev pub stop : ℕ
    stop = from + cnt - 1

    sum : int_of (pos from +ℤ pos cnt) ≡ done (pos (from + cnt))
    sum =
        let one : leb 0 (from + cnt) ≡ true = le→leb 0 (from + cnt) (omega arith) in
        rw (one, sub-zero) (int_of-pos (from + cnt) last_fits)

    end_id : int_of (pos (from + cnt) -ℤ pos 1) ≡ done (pos stop)
    end_id =
        let two : leb 1 (from + cnt) ≡ true = le→leb 1 (from + cnt) (omega arith) in
        rw (add-zero, two) (int_of-pos stop (omega arith))

    size : int_of (times (pos cnt) values_id_size) ≡ done (pos (cnt * 1024))
    size =
        let one : leb 0 (cnt * 1024) ≡ true = le→leb 0 (cnt * 1024) (omega arith) in
        rw (one, sub-zero) (int_of-pos (cnt * 1024) rows_fit)

    -- The files that the page shows.
    abbrev pub page_files : List FileInfo
    page_files = take stop (take cnt (drop from shelf.files))

    -- Where a connection is made, a request for cnt entries from an index on, at least one, prints
    -- the page of the files at these places of the shelf, newest first, as they were stored, and
    -- with their visits less one, or with -2 where an id was never counted, as behind the first of
    -- the two commands of an upload. From an index above 0 on all cnt are shown, and from the
    -- index 0 on the last is lost. A page of 4090 bytes or more is not printed: its line in the
    -- log is written past the end of an array. The index is not negative, its sum with cnt and the
    -- rows' size of 1024 bytes each are an int; the shown files have a non-empty url with "/group"
    -- in it, a non-empty name and time, no '|' in a field, and fields and suffixes that fit into
    -- the arrays of the list and the rows, their visits are an int, and there is memory for the
    -- rows.
    pub read_redis_to_json-scores :
        (memory : List Bytes) (w w₀ : H.World)
        → All IsRow memory
        → cnt ≤ length memory
        → rop_connectdb_nopwd H (codes "127.0.0.1") (codes "6379") w ≡ done (some conn, w₀)
        → Holds H conn laws shelf w
        → read_redis_to_json H C (pos from) (pos cnt) memory w ≡ (
            if fits_log (page_of C score page_files)
            then done ((pos 0, some (page_of C score page_files)), H.free conn w₀)
            else fault)
    unfolding read_redis_to_json list_files rop_disconnect sprintf
    read_redis_to_json-scores memory w w₀ are_rows room opened before =
        let held = connected-Holds H conn laws shelf w w₀ opened before in
        let files = take cnt (drop from shelf.files) in
        let (reply, run, type, element) = laws.range from stop w₀ in
        let number : stop + 1 - from ≡ cnt = omega arith in
        let texts : take (stop + 1 - from) (drop from (laws.rows w₀)) ≡ map print files =
          ap (λ k. take k (drop from (laws.rows w₀))) number
          ∙ ap (λ t. take cnt (drop from t)) held.files
          ∙ ap (take cnt) (drop-map print from shelf.files)
          ∙ take-map print cnt (drop from shelf.files) in
        let sized = length-map print files in
        let few : length files ≤ cnt = length-take cnt (drop from shelf.files) in
        let rows =
          rop_range_list-rows H conn list_key from stop memory (map print files) reply w₀ w₀ run
            type (element ∙ ap (map some) texts) (are_values files shown) are_rows
            (omega (arith, sized, few)) in
        let k = min (length (map print files)) stop in
        let items =
          make_items-entries k files memory scratch C.create_array w₀
            (All-take (IsPresentable shelf) k files shown) (omega (arith, sized))
            (omega (arith, sized, few)) (refl, refl, refl) held in
        let first_files : take k files ≡ page_files =
          ap (λ m. take (min m stop) files) sized ∙ take-min files stop in
        rw (sum, end_id, opened, size, rows, items, first_files)
          (elim (Bool-cases (fits_log (page_of C score page_files))) [
            | inl fits ↦ rw fits
            | inr long ↦ rw long
          ])
