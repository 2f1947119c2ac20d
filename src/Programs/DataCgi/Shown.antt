-- ===== src/Programs/DataCgi/Shown.antt =====
-- The requests for the list and for a visit against the shelf.
use distributed_storage.Base.{
  if◌then◌else◌, Bool-cases, inl, inr, ◌+◌, ◌-◌, ◌≤◌, ◌<◌, ◌≡◌, Option, some, none, List, length,
  take, drop, All, arith,
}
use distributed_storage.Clib.Chars.{int_max}
use distributed_storage.Clib.Decimal.{IsDecimal, number, four_digits}
use distributed_storage.Clib.Exec.{done, fault}
use distributed_storage.Clib.Strings.{Bytes, codes}
use distributed_storage.DataUse.Listing.{CJson}
use distributed_storage.Programs.DataCgi.{Arrays, page, handle}
use distributed_storage.Programs.DataCgi.Fresh.{IsSized}
use distributed_storage.Programs.DataCgi.Increase.{
  IsPart, escaped, plain, click_request, click_arrays, handle-increase,
}
use distributed_storage.Programs.DataCgi.NewFile.{list_request, list_arrays, handle-new_file}
use distributed_storage.RedisOp.Connect.{rop_connectdb_nopwd}
use distributed_storage.RedisOp.Hiredis.{Hiredis}
use distributed_storage.RedisOp.Values.Replies.{IsRow}
use distributed_storage.Shelf.{Shelf, ServerLaws, Holds, visit}
use distributed_storage.Shelf.Shows.{IsShown, page_text, read_redis_to_json-shows}
use distributed_storage.Shelf.Scores.{fits_log}
use distributed_storage.Shelf.Writes.{increase_file_pv-visit}

module _ (H : Hiredis) (C : CJson) (conn : H.Context) (laws : ServerLaws H conn) where
  open H use {World}

  -- A request "cmd=newFile&fromId=F&count=C" of data_cgi.c on a server that holds a shelf is
  -- answered with the page of the C files from the place F on, newest first, as they were stored
  -- and with their visits less one; of the page from 0 on the last file is lost. A page of 4090
  -- bytes or more is not printed: its line in the log is written past the end of an array. F and C
  -- are decimal numbers of fewer than 64 and 5 digits whose sum is an int, and C is not 0; a
  -- connection is made, the shown files have a non-empty url with "/group" in it, a non-empty name
  -- and time, no '|' in a field, and fields and suffixes that fit into the arrays of the list and
  -- the rows, each was counted once at least and its visits are an int, and there is memory for
  -- the rows.
  pub handle-page :
      (f c r : Bytes) (hf : IsDecimal f) (hc : IsDecimal c) (rows : List Bytes)
      (block : Option Bytes) (s : Arrays) (shelf : Shelf) (w w₀ : World)
      → IsSized s
      → length f < 64
      → length c < 5
      → number f 0 + number c 0 ≤ int_max
      → 1 ≤ number c 0
      → All (IsShown shelf) (take (number c 0) (drop (number f 0) shelf.files))
      → All IsRow rows
      → number c 0 ≤ length rows
      → rop_connectdb_nopwd H (codes "127.0.0.1") (codes "6379") w ≡ done (some conn, w₀)
      → Holds H conn laws shelf w
      → handle H C (list_request f c r hf hc H C rows block) s w ≡ (
          if fits_log (
            page_text C shelf (
              take
                (number f 0 + number c 0 - 1)
                (take (number c 0) (drop (number f 0) shelf.files))))
          then done (
            (
              page (
                  some (
                    page_text C shelf (
                      take
                        (number f 0 + number c 0 - 1)
                        (take (number c 0) (drop (number f 0) shelf.files))))),
              list_arrays f c r hf hc H C rows block,
            ),
            H.free conn w₀,
          )
          else fault)
  handle-page f c r hf hc rows block s shelf w w₀ sized long_f long_c small some_files shown
        are_rows room opened held =
      let listed =
        read_redis_to_json-shows H C conn laws shelf (number f 0) (number c 0) some_files small
          (omega (arith, four_digits c hc long_c)) shown rows w w₀ are_rows room opened held in
      let out =
        page_text C shelf (
          take (number f 0 + number c 0 - 1) (take (number c 0) (drop (number f 0) shelf.files))) in
      rw
        (
          handle-new_file f c r hf hc H C rows block s w sized long_f long_c (omega arith)
              (omega arith),
          listed,
        )
        (elim (Bool-cases (fits_log out)) [ inl fits ↦ rw fits | inr long ↦ rw long ])

  -- A request "cmd=increase&fileId=I" on a server that holds a shelf is answered with an empty page, and the
  -- server then holds the shelf with one visit more for I with each "%2F" turned into '/'. A connection
  -- is made, `malloc` gives cleared memory, and I holds at least one "%2F", no other '%', and has fewer
  -- than 256 bytes.
  pub handle-visit :
      (p : Bytes) (ps : List Bytes) (last r : Bytes) (hp : IsPart p) (h : All IsPart ps)
      (hl : IsPart last) (rows : List Bytes) (s : Arrays) (shelf : Shelf) (w w₀ : World)
      → IsSized s
      → length (escaped p ps last r hp h hl) < 256
      → rop_connectdb_nopwd H (codes "127.0.0.1") (codes "6379") w ≡ done (some conn, w₀)
      → Holds H conn laws shelf w
      → (w' : World) × (handle H C (click_request p ps last r hp h hl H C rows) s w
          ≡ done ((page none, click_arrays p ps last r hp h hl H C rows), w'))
        × Holds H conn laws (visit (plain p ps last r hp h hl) shelf) w'
  handle-visit p ps last r hp h hl rows s shelf w w₀ sized fits opened held =
      let (w', run, counted) =
        increase_file_pv-visit H conn laws (plain p ps last r hp h hl) shelf w w₀ opened held in
      (w', rw (handle-increase p ps last r hp h hl H C rows s w sized fits, run), counted)
