-- ===== src/Shelf/Listed.antt =====
-- What the list shows after uploads and visits.
use distributed_storage.Base.{
  if◌then◌else◌, ℕ, ◌+◌, ◌-◌, ◌*◌, ◌≤◌, ◌<◌, ◌≡◌, some, List, [], pos, length, take, drop, All,
  All-take, All-drop, All-zip,
}
use distributed_storage.Clib.Chars.{int_max}
use distributed_storage.Clib.Exec.{done, fault}
use distributed_storage.Clib.Strings.{Bytes, codes}
use distributed_storage.DataUse.Listing.{CJson, read_redis_to_json}
use distributed_storage.FileInfo.{FileInfo}
use distributed_storage.RedisOp.Connect.{rop_connectdb_nopwd}
use distributed_storage.RedisOp.Hiredis.{Hiredis}
use distributed_storage.RedisOp.Values.Replies.{IsRow}
use distributed_storage.Shelf.{Shelf, ServerLaws, Holds}
use distributed_storage.Shelf.Scores.{IsPresentable, fits_log}
use distributed_storage.Shelf.Shows.{IsShown, page_text, read_redis_to_json-shows}
use distributed_storage.Shelf.Traffic.{Event, after, Runs, Runs-Holds, after-IsVisited}

-- Nothing was uploaded.
abbrev pub no_files : Shelf
no_files = record { files = []; visits = λ id. 0 }

abbrev IsCounted : Shelf → FileInfo → Type 0
IsCounted shelf info = 0 < shelf.visits info.file_id

visited-IsShown :
    (shelf : Shelf) (info : FileInfo)
    → IsPresentable shelf info
    → 0 < shelf.visits info.file_id
    → IsShown shelf info
visited-IsShown shelf info h lt = record { presentable = h; visited = lt }

-- After uploads and visits each file of a part of the list was visited.
pub after-IsShown :
    (events : List Event) (from cnt : ℕ)
    → All
        (IsPresentable (after events no_files))
        (take cnt (drop from (after events no_files).files))
    → All (IsShown (after events no_files)) (take cnt (drop from (after events no_files).files))
after-IsShown events from cnt fit =
    let shelf = after events no_files in
    let counted =
      All-take (IsCounted shelf) cnt (drop from shelf.files)
        (All-drop (IsCounted shelf) from shelf.files (after-IsVisited events no_files tt)) in
    All-zip (visited-IsShown shelf) (take cnt (drop from shelf.files)) fit counted

module _ (H : Hiredis) (C : CJson) (conn : H.Context) (laws : ServerLaws H conn) where
  -- On a server that held nothing, after any uploads and visits, a request for `cnt` entries from the index
  -- `from` on prints the page of the files that were uploaded, newest first, as they were stored,
  -- each with its visits less the one of its upload; from the index 0 on the last of them is lost. A page
  -- of 4090 bytes or more is not printed: its line in the log is written past the end of an array. The
  -- uploads and the visits make their connections, and so does the request; the fields of the files
  -- fit into their arrays, the numbers of visits, the last index and the rows' size are an `int`, and there is
  -- memory for the rows.
  pub read_redis_to_json-Runs :
      (events : List Event) (from cnt : ℕ) (memory : List Bytes) (w w' w₀ : H.World)
      → Holds H conn laws no_files w
      → Runs H conn events w w'
      → 1 ≤ cnt
      → from + cnt ≤ int_max
      → cnt * 1024 ≤ int_max
      → All
          (IsPresentable (after events no_files))
          (take cnt (drop from (after events no_files).files))
      → All IsRow memory
      → cnt ≤ length memory
      → rop_connectdb_nopwd H (codes "127.0.0.1") (codes "6379") w' ≡ done (some conn, w₀)
      → read_redis_to_json H C (pos from) (pos cnt) memory w' ≡ (
          if fits_log (
            page_text C
              (after events no_files)
              (take (from + cnt - 1) (take cnt (drop from (after events no_files).files))))
          then done (
            (
              pos 0,
              some (
                  page_text C
                    (after events no_files)
                    (take (from + cnt - 1) (take cnt (drop from (after events no_files).files)))),
            ),
            H.free conn w₀,
          )
          else fault)
  read_redis_to_json-Runs events from cnt memory w w' w₀ empty runs some_files last_fits rows_fit
        fit rows room opened =
      read_redis_to_json-shows H C conn laws (after events no_files) from cnt some_files last_fits
        rows_fit (after-IsShown events from cnt fit) memory w' w₀ rows room opened
        (Runs-Holds H conn laws no_files runs empty)
