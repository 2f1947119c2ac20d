-- ===== src/Programs/DataCgi/NewFile.antt =====
-- The requests that a page makes for a part of the list of files.
use distributed_storage.Base.{
  ℕ, suc, ◌+◌, ◌≤◌, ◌<◌, ◌≡◌, ◌≢◌, refl, ap, sym, ◌∙◌, true, Option, some, ℤ, [], ◌∷◌, ◌++◌, arith,
  length, drop, All, All-append, append_assoc, length-append, pos, List,
}
use distributed_storage.Clib.Chars.{int_max}
use distributed_storage.Clib.Decimal.{IsDecimal, number, atoi-number}
use distributed_storage.Clib.Exec.{done}
use distributed_storage.Clib.First.{Absent, is_absent, is_absent-Absent, Absent-lacks, Absent-join}
use distributed_storage.Clib.Search.{text_of-text}
use distributed_storage.Clib.Strings.{Bytes, IsText, codes, zeros, text_of, equal, starts_with}
use distributed_storage.DataUse.Listing.{CJson, read_redis_to_json}
use distributed_storage.Programs.DataCgi.{Request, Arrays, Outcome, page, new_file, handle}
use distributed_storage.Programs.DataCgi.Fresh.{IsSized, clear-clean}
use distributed_storage.RedisOp.Action.{Action, ◌>>=◌, return}
use distributed_storage.RedisOp.Hiredis.{Hiredis}
use distributed_storage.Usefull.Query.{get_parameter, get_cmd, get_from_id, get_cnt}
use distributed_storage.Usefull.Query.Parameter.{get_parameter-value}
use distributed_storage.Usefull.Query.Value.{IsValue, query}

IsDecimal-IsValue : (f : Bytes) → IsDecimal f → IsValue f
IsDecimal-IsValue [] h = tt
IsDecimal-IsValue (c ∷ f) h = (ground arith, IsDecimal-IsValue f h.1)

IsDecimal-lacks : (f : Bytes) (k : ℕ) → b'9' < k → IsDecimal f → All (λ c. c ≢ k) f
IsDecimal-lacks [] k lt h = tt
IsDecimal-lacks (c ∷ f) k lt h = (omega arith, IsDecimal-lacks f k lt h.1)

IsDecimal-IsText : (f : Bytes) → IsDecimal f → IsText f
IsDecimal-IsText [] h = tt
IsDecimal-IsText (c ∷ f) h = (omega arith, IsDecimal-IsText f h.1)

module _ (f c r : Bytes) where
  -- "cmd=newFile&fromId=F&count=C", with a byte 0 behind it.
  abbrev pub list_query : Bytes
  list_query = codes "cmd=newFile&fromId=" ++ (f ++ (codes "&count=" ++ (c ++ 0 ∷ r)))

  abbrev in_front : Bytes
  in_front = codes "cmd=newFile&fromId=" ++ (f ++ codes "&")

  module _ (hf : IsDecimal f) (hc : IsDecimal c) where
    get_cmd-new_file :
        get_cmd (some list_query) (zeros 20) ≡ done (pos 0, codes "newFile" ++ 0 ∷ zeros 12)
    unfolding get_cmd
    get_cmd-new_file =
        get_parameter-value [] b'c' (codes "md") b'=' (codes "newFile") b'&'
          (codes "fromId=" ++ (f ++ (codes "&count=" ++ (c ++ 0 ∷ r)))) (zeros 20) tt
          (λ j lt. absurd (omega arith)) (refl, (refl, (refl, (refl, (refl, (refl, (refl, tt)))))))
          refl (omega arith)

    get_from_id-list :
        length f < 64
        → get_from_id (some list_query) (zeros 64)
          ≡ done (pos 0, f ++ 0 ∷ drop (suc (length f)) (zeros 64))
    unfolding get_from_id
    get_from_id-list fits =
        get_parameter-value (codes "cmd=newFile&") b'f' (codes "romId") b'=' f b'&'
          (codes "count=" ++ (c ++ 0 ∷ r)) (zeros 64) (omega arith)
          (is_absent-Absent (codes "fromId") list_query 12 (unfold is_absent starts_with in refl))
          (IsDecimal-IsValue f hf) refl fits

    count-Absent : Absent (codes "count") list_query (length in_front)
    count-Absent =
        let tail = codes "&count=" ++ (c ++ 0 ∷ r) in
        let lacks =
          Absent-lacks b'c' (codes "ount") f tail (IsDecimal-lacks f b'c' (omega arith) hf) in
        let last = is_absent-Absent (codes "count") tail 1 (unfold is_absent starts_with in refl) in
        let front =
          is_absent-Absent (codes "count") list_query 19 (unfold is_absent starts_with in refl) in
        λ j lt.
          Absent-join (codes "count") (codes "cmd=newFile&fromId=") (f ++ tail) (length f + 1) front
            (Absent-join (codes "count") f tail 1 lacks last) j
            (omega (arith, lt, length-append f (codes "&")))

    same_query : query in_front b'c' (codes "ount") b'=' c 0 r ≡ list_query
    same_query =
        ap (λ t. codes "cmd=newFile&fromId=" ++ t)
          (append_assoc f (codes "&") (codes "count=" ++ (c ++ 0 ∷ r)))

    front-IsText : IsText in_front
    front-IsText =
        All-append (λ c. c ≢ 0) (codes "cmd=newFile&fromId=") (f ++ codes "&") (omega arith)
          (All-append (λ c. c ≢ 0) f (codes "&") (IsDecimal-IsText f hf) (omega arith))

    get_cnt-list :
        length c < 5
        → get_cnt (some list_query) (zeros 5)
          ≡ done (pos 0, c ++ 0 ∷ drop (suc (length c)) (zeros 5))
    unfolding get_cnt
    get_cnt-list fits =
        ap (λ q. get_parameter (codes "count") (some q) (zeros 5)) (sym same_query)
        ∙ get_parameter-value in_front b'c' (codes "ount") b'=' c 0 r (zeros 5) front-IsText
            (rw same_query count-Absent) (IsDecimal-IsValue c hc) refl fits

    module _ (H : Hiredis) (C : CJson) (rows : List Bytes) (block : Option Bytes) where
      open H use {World}

      abbrev pub list_request : Request
      list_request = record { query_string = some list_query; rows = rows; block = block }

      -- The arrays behind the request.
      abbrev pub list_arrays : Arrays
      list_arrays = record {
        cmd = codes "newFile" ++ 0 ∷ zeros 12;
        from_id = f ++ 0 ∷ drop (suc (length f)) (zeros 64);
        cnt = c ++ 0 ∷ drop (suc (length c)) (zeros 5);
        file_id = zeros 256;
      }

      abbrev pub as_page : ℤ × Option Bytes → Action World (Outcome × Arrays)
      as_page listed = return (page listed.1, list_arrays)

      -- A request "cmd=newFile&fromId=F&count=C" is answered with the page of the list from F on, of C
      -- entries, where F and C are numbers in decimal digits, each an `int`, of fewer than 64 and of
      -- fewer than 5 digits, whatever requests came before it.
      pub handle-new_file :
          (s : Arrays) (w : World)
          → IsSized s
          → length f < 64
          → length c < 5
          → number f 0 ≤ int_max
          → number c 0 ≤ int_max
          → handle H C list_request s w
            ≡ (read_redis_to_json H C (pos (number f 0)) (pos (number c 0)) rows >>= as_page) w
      unfolding handle new_file
      handle-new_file s w sized long_f long_c int_f int_c =
          let text : text_of (codes "newFile" ++ 0 ∷ zeros 12) ≡ done (codes "newFile") =
            text_of-text (codes "newFile") (zeros 12) (omega arith) in
          let same : equal (codes "newFile") (codes "newFile") ≡ true = unfold equal in refl in
          rw (
            clear-clean s sized,
            get_cmd-new_file,
            text,
            same,
            get_from_id-list long_f,
            get_cnt-list long_c,
            atoi-number f (drop (suc (length f)) (zeros 64)) hf int_f,
            atoi-number c (drop (suc (length c)) (zeros 5)) hc int_c,
          )
