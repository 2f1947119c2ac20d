-- ===== src/Shelf/Shows.antt =====
-- `read_redis_to_json` against the shelf.
use distributed_storage.Base.{
  subst, ℤ, ℕ, zero, suc, ◌+◌, ◌-◌, ◌*◌, ◌≤◌, ◌<◌, ◌≡◌, refl, ap, some, List, [], ◌∷◌, length, take,
  drop, pos, if◌then◌else◌, All, arith, All-take,
}
use distributed_storage.Clib.Chars.{int_max}
use distributed_storage.Clib.Exec.{done, fault}
use distributed_storage.Clib.Strings.{Bytes, codes}
use distributed_storage.DataUse.Listing.{CJson, read_redis_to_json}
use distributed_storage.DataUse.Listing.Item.{entry}
use distributed_storage.FileInfo.{FileInfo}
use distributed_storage.RedisOp.Connect.{rop_connectdb_nopwd}
use distributed_storage.RedisOp.Hiredis.{Hiredis}
use distributed_storage.RedisOp.Values.Replies.{IsRow}
use distributed_storage.Shelf.{Shelf, ServerLaws, Holds}
use distributed_storage.Shelf.Scores.{
  IsPresentable, host_of, score_of, entries, page_of, fits_log, read_redis_to_json-scores,
}

-- A file that the list can show: its fields fit into the arrays, and it was visited, not too often.
pub record IsShown (shelf : Shelf) (info : FileInfo) : Type 0 where
  pub presentable : IsPresentable shelf info
  pub visited : 0 < shelf.visits info.file_id

-- The page, with the visits as the scores.
abbrev pub visits_of : Shelf → Bytes → ℤ
visits_of shelf id = pos (shelf.visits id)

abbrev pub page_text : CJson → Shelf → List FileInfo → Bytes
page_text C shelf infos = page_of C (visits_of shelf) infos

score_of-pos : (n : ℕ) → 0 < n → score_of n ≡ pos n
score_of-pos zero lt = absurd (omega arith)
score_of-pos (suc n) lt = refl

entries-visited :
    (C : CJson) (shelf : Shelf) (infos : List FileInfo) (array : C.Json)
    → All (IsShown shelf) infos
    → entries C (λ id. score_of (shelf.visits id)) infos array
      ≡ entries C (visits_of shelf) infos array
entries-visited C shelf [] array shown = refl
entries-visited C shelf (info ∷ infos) array (is, later) =
    let visits = score_of-pos (shelf.visits info.file_id) is.visited in
    rw visits (
      entries-visited C shelf infos
        (C.add_item_to_array array
          (entry C info (host_of info.url) (pos (shelf.visits info.file_id))))
        later)

IsPresentable-of_shown :
    (shelf : Shelf) (infos : List FileInfo)
    → All (IsShown shelf) infos
    → All (IsPresentable shelf) infos
IsPresentable-of_shown shelf [] shown = tt
IsPresentable-of_shown shelf (info ∷ infos) (is, later) =
    (is.presentable, IsPresentable-of_shown shelf infos later)

module _ (H : Hiredis) (C : CJson) (conn : H.Context) (laws : ServerLaws H conn) (shelf : Shelf)
    (from cnt : ℕ) (some_files : 1 ≤ cnt) (last_fits : from + cnt ≤ int_max)
    (rows_fit : cnt * 1024 ≤ int_max)
    (shown : All (IsShown shelf) (take cnt (drop from shelf.files))) where
  -- The files that the page shows.
  abbrev pub page_files : List FileInfo
  page_files = take (from + cnt - 1) (take cnt (drop from shelf.files))

  page-visited :
      page_of C (λ id. score_of (shelf.visits id)) page_files ≡ page_text C shelf page_files
  page-visited =
      ap (λ a. C.print (C.add_item_to_object C.create_object (codes "games") a))
        (entries-visited C shelf page_files C.create_array
          (All-take (IsShown shelf) (from + cnt - 1) (take cnt (drop from shelf.files)) shown))

  -- Where a connection is made, a request for `cnt` entries from the index `from` on prints the page of
  -- the files at these places of the shelf, newest first, each with its fields as they were stored and
  -- with its visits less the one of the upload. From an index above 0 on all `cnt` are shown, and from
  -- the index 0 on the last is lost, since `from + cnt - 1` is taken for their number. A page of 4090
  -- bytes or more is not printed: its line in the log is written past the end of an array. The files' fields
  -- fit into their arrays, the numbers of visits, the last index and the rows' size are an `int`, and there is
  -- memory for the rows.
  pub read_redis_to_json-shows :
      (memory : List Bytes) (w w₀ : H.World)
      → All IsRow memory
      → cnt ≤ length memory
      → rop_connectdb_nopwd H (codes "127.0.0.1") (codes "6379") w ≡ done (some conn, w₀)
      → Holds H conn laws shelf w
      → read_redis_to_json H C (pos from) (pos cnt) memory w ≡ (
          if fits_log (page_text C shelf page_files)
          then done ((pos 0, some (page_text C shelf page_files)), H.free conn w₀)
          else fault)
  read_redis_to_json-shows memory w w₀ are_rows room opened before =
      let fit = IsPresentable-of_shown shelf (take cnt (drop from shelf.files)) shown in
      subst
        (λ t.
          read_redis_to_json H C (pos from) (pos cnt) memory w
          ≡ (if fits_log t then done ((pos 0, some t), H.free conn w₀) else fault))
        page-visited
        (read_redis_to_json-scores H C conn laws shelf from cnt some_files last_fits rows_fit fit
          memory w w₀ are_rows room opened before)
