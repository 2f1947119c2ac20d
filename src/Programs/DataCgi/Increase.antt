-- ===== src/Programs/DataCgi/Increase.antt =====
-- The requests that a page makes when a file was clicked.
use distributed_storage.Base.{
  suc, ◌-◌, ◌<◌, ◌≡◌, ◌≢◌, refl, ap, ◌∙◌, true, false, some, none, ℤ, [], ◌∷◌, ◌++◌, arith, length,
  drop, All, All-append, append_assoc, length-append, pos, List,
}
use distributed_storage.Clib.Copy.{padded-suc}
use distributed_storage.Clib.Exec.{done}
use distributed_storage.Clib.First.{is_absent, is_absent-Absent}
use distributed_storage.Clib.Search.{text_of-text}
use distributed_storage.Clib.Strings.{Bytes, codes, zeros, padded, text_of, equal, starts_with}
use distributed_storage.DataUse.Listing.{CJson, increase_file_pv}
use distributed_storage.DataUse.Replace.{str_replace}
use distributed_storage.DataUse.Replace.Replaces.{str_replace-joined, joined-IsText}
use distributed_storage.DataUse.Replace.Rounds.{joined, Lacks}
use distributed_storage.Programs.DataCgi.{
  Request, Arrays, Outcome, page, increase, count_visit, handle,
}
use distributed_storage.Programs.DataCgi.Fresh.{IsSized, clear-clean}
use distributed_storage.RedisOp.Action.{Action, ◌>>=◌, return}
use distributed_storage.RedisOp.Hiredis.{Hiredis}
use distributed_storage.Usefull.Query.{get_cmd, get_file_id}
use distributed_storage.Usefull.Query.Parameter.{get_parameter-value}
use distributed_storage.Usefull.Query.Value.{IsValue, IsValue-IsText, ends_value}

length-joined_shorter :
    (p : Bytes) (ps : List Bytes) (last : Bytes)
    → length (joined (codes "/") (p ∷ ps) last) < length (joined (codes "%2F") (p ∷ ps) last)
length-joined_shorter p [] last =
    omega (arith, length-append p (codes "/" ++ last), length-append p (codes "%2F" ++ last))
length-joined_shorter p (q ∷ ps) last = omega (
  arith,
  length-joined_shorter q ps last,
  length-append p (codes "/" ++ joined (codes "/") (q ∷ ps) last),
  length-append p (codes "%2F" ++ joined (codes "%2F") (q ∷ ps) last),
)

-- A part of a file's id: no byte that ends a value, and no '%'.
abbrev pub IsPart : Bytes → Type 0
IsPart = All (λ c. (ends_value c ≡ false) × (c ≢ b'%'))

IsPart-IsValue : (p : Bytes) → IsPart p → IsValue p
IsPart-IsValue [] h = tt
IsPart-IsValue (c ∷ p) h = (h.0.0, IsPart-IsValue p h.1)

IsPart-Lacks : (p : Bytes) → IsPart p → Lacks b'%' p
IsPart-Lacks [] h = tt
IsPart-Lacks (c ∷ p) h = ((ground (arith, h.0.0), h.0.1), IsPart-Lacks p h.1)

parts-Lacks : (ps : List Bytes) → All IsPart ps → All (Lacks b'%') ps
parts-Lacks [] h = tt
parts-Lacks (p ∷ ps) h = (IsPart-Lacks p h.0, parts-Lacks ps h.1)

joined-IsValue :
    (ps : List Bytes) (last : Bytes)
    → All IsPart ps
    → IsPart last
    → IsValue (joined (codes "%2F") ps last)
joined-IsValue [] last h hl = IsPart-IsValue last hl
joined-IsValue (p ∷ ps) last h hl =
    All-append (λ c. ends_value c ≡ false) p (codes "%2F" ++ joined (codes "%2F") ps last)
      (IsPart-IsValue p h.0) (refl, (refl, (refl, joined-IsValue ps last h.1 hl)))

module _ (p : Bytes) (ps : List Bytes) (last r : Bytes) (hp : IsPart p) (h : All IsPart ps)
    (hl : IsPart last) where
  -- The id as the browser writes it, and as it is stored.
  abbrev pub escaped : Bytes
  escaped = joined (codes "%2F") (p ∷ ps) last

  abbrev pub plain : Bytes
  plain = joined (codes "/") (p ∷ ps) last

  -- "cmd=increase&fileId=I", with a byte 0 behind it.
  abbrev pub click_query : Bytes
  click_query = codes "cmd=increase&fileId=" ++ (escaped ++ 0 ∷ r)

  abbrev behind : Bytes
  behind = drop (suc (length escaped)) (zeros 256)

  get_cmd-increase :
      get_cmd (some click_query) (zeros 20) ≡ done (pos 0, codes "increase" ++ 0 ∷ zeros 11)
  unfolding get_cmd
  get_cmd-increase =
      get_parameter-value [] b'c' (codes "md") b'=' (codes "increase") b'&'
        (codes "fileId=" ++ (escaped ++ 0 ∷ r)) (zeros 20) tt (λ j lt. absurd (omega arith))
        (refl, (refl, (refl, (refl, (refl, (refl, (refl, (refl, tt)))))))) refl (omega arith)

  get_file_id-click :
      length escaped < 256
      → get_file_id (some click_query) (zeros 256) ≡ done (pos 0, escaped ++ 0 ∷ behind)
  unfolding get_file_id
  get_file_id-click fits =
      get_parameter-value (codes "cmd=increase&") b'f' (codes "ileId") b'=' escaped 0 r (zeros 256)
        (omega arith)
        (is_absent-Absent (codes "fileId") click_query 13 (unfold is_absent starts_with in refl))
        (joined-IsValue (p ∷ ps) last (hp, h) hl) refl fits

  abbrev pub plain_array : Bytes
  plain_array = padded (length escaped) plain ++ 0 ∷ behind

  replaced :
      str_replace
        (some (escaped ++ 0 ∷ behind))
        (some (codes "%2F"))
        (some (codes "/"))
        (some (zeros (length escaped)))
      ≡ done (some (pos 0, some plain_array))
  replaced =
      str_replace-joined b'%' (codes "2F") (codes "/") (p ∷ ps) last behind (omega arith)
        (omega arith) (parts-Lacks (p ∷ ps) (hp, h)) (IsPart-Lacks last hl)
        (length-joined_shorter p ps last)

  plain-text : text_of plain_array ≡ done plain
  plain-text =
      let zs = zeros (length escaped - length plain - 1) in
      let same : plain_array ≡ plain ++ 0 ∷ (zs ++ 0 ∷ behind) =
        ap (λ t. t ++ 0 ∷ behind)
          (padded-suc (length escaped) plain (length-joined_shorter p ps last))
        ∙ append_assoc plain (0 ∷ zs) (0 ∷ behind) in
      rw same (
        text_of-text plain (zs ++ 0 ∷ behind) (
          joined-IsText b'%' (codes "/") (p ∷ ps) last (omega arith) (parts-Lacks (p ∷ ps) (hp, h))
            (IsValue-IsText last (IsPart-IsValue last hl))))

  module _ (H : Hiredis) (C : CJson) (rows : List Bytes) where
    open H use {World}

    -- `malloc` gives cleared memory of as many bytes as the id has.
    abbrev pub click_request : Request
    click_request = record {
      query_string = some click_query;
      rows = rows;
      block = some (zeros (length escaped));
    }

    -- The arrays behind the request.
    abbrev pub click_arrays : Arrays
    click_arrays = record {
      cmd = codes "increase" ++ 0 ∷ zeros 11;
      from_id = zeros 64;
      cnt = zeros 5;
      file_id = plain_array;
    }

    abbrev pub as_empty_page : ℤ → Action World (Outcome × Arrays)
    as_empty_page counted = return (page none, click_arrays)

    -- A request "cmd=increase&fileId=I" counts one visit of the file whose id is I with each "%2F"
    -- turned into '/', and is answered with an empty page whatever comes of the count, where `malloc`
    -- gives cleared memory. I holds at least one "%2F", no other '%', and has fewer than 256 bytes.
    pub handle-increase :
        (s : Arrays) (w : World)
        → IsSized s
        → length escaped < 256
        → handle H C click_request s w ≡ (increase_file_pv H plain >>= as_empty_page) w
    unfolding handle increase count_visit
    handle-increase s w sized fits =
        let text : text_of (codes "increase" ++ 0 ∷ zeros 11) ≡ done (codes "increase") =
          text_of-text (codes "increase") (zeros 11) (omega arith) in
        let other : equal (codes "increase") (codes "newFile") ≡ false = unfold equal in refl in
        let same : equal (codes "increase") (codes "increase") ≡ true = unfold equal in refl in
        rw (
          clear-clean s sized,
          get_cmd-increase,
          text,
          other,
          same,
          get_file_id-click fits,
          replaced,
          plain-text,
        )
