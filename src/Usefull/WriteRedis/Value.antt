-- ===== src/Usefull/WriteRedis/Value.antt =====
-- The value that `write_redis` makes is the documented format's text.
use distributed_storage.Base.{
  ℕ, ◌+◌, ◌<◌, ◌≡◌, ap, ◌∙◌, some, List, [], ◌∷◌, ◌++◌, All, length, length-append, arith,
  append_assoc, append-nil, map, drop, sub-zero, All-append, ◌≢◌, pos, suc,
}
use distributed_storage.Clib.Exec.{done}
use distributed_storage.Clib.Strings.{Bytes, IsText, codes, zeros, padded, strcat}
use distributed_storage.Clib.Copy.{strcat-padded}
use distributed_storage.FileInfo.{FileInfo, print}
use distributed_storage.Usefull.Suffix.Spec.{suffix_of, put, get_file_suffix-suffix_of}
use distributed_storage.Usefull.Suffix.{get_file_suffix}
use distributed_storage.Usefull.TrimSpace.{trim_space}
use distributed_storage.Usefull.WriteRedis.{strcat_all, make_value, suffix_len}

-- A text, and what stands behind the byte 0 that ends it.
abbrev array_of : Bytes × Bytes → Bytes
array_of p = p.0 ++ 0 ∷ p.1

total : List (Bytes × Bytes) → Bytes
total [] = []
total (p ∷ ps) = p.0 ++ total ps

strcat_all-padded :
    (size : ℕ) (u : Bytes) (ps : List (Bytes × Bytes))
    → IsText u
    → All (λ p. IsText p.0) ps
    → length u + length (total ps) < size
    → strcat_all (padded size u) (map array_of ps) ≡ done (padded size (u ++ total ps))
unfolding strcat_all total
strcat_all-padded size u [] hu h fits = rw append-nil
strcat_all-padded size u (p ∷ ps) hu h fits =
    rw
      (
        strcat-padded size u p.0 p.1 hu h.0 (omega (arith, length-append p.0 (total ps))),
        strcat_all-padded size (u ++ p.0) ps (All-append (λ c. c ≢ 0) u p.0 hu h.0) h.1
            (omega (arith, length-append p.0 (total ps), length-append u p.0)),
      )
      (ap (λ t. done (padded size t)) (append_assoc u p.0 (total ps)))

total-IsText : (ps : List (Bytes × Bytes)) → All (λ p. IsText p.0) ps → IsText (total ps)
unfolding total
total-IsText [] h = tt
total-IsText (p ∷ ps) h = All-append (λ c. c ≢ 0) p.0 (total ps) h.0 (total-IsText ps h.1)

-- Two delimiters' bytes with nothing behind them.
delim : Bytes × Bytes
delim = (codes "||", [])

module _ (size : ℕ) (info : FileInfo) (create_time ra rb rc rd re : Bytes)
    (tid : IsText info.file_id) (turl : IsText info.url) (tname : IsText info.filename)
    (ttime : IsText info.create_time) (tuser : IsText info.user)
    (is_kind : info.kind ≡ suffix_of info.filename) (tkind : IsText info.kind)
    (trimmed : trim_space create_time ≡ done (pos 0, info.create_time ++ 0 ∷ rd))
    (short : length info.kind < suffix_len) (fits : length (print info) < size) where
  first_part : List (Bytes × Bytes)
  first_part =
      (info.file_id, ra) ∷ delim ∷ (info.url, rb) ∷ delim ∷ (info.filename, rc) ∷ delim ∷ []

  second_part : List (Bytes × Bytes)
  second_part = (info.create_time, rd) ∷ delim ∷ (info.user, re) ∷ delim ∷ []

  whole : total first_part ++ (total second_part ++ info.kind) ≡ print info
  unfolding total first_part second_part delim
  whole = simp append_assoc

  lengths : length (total first_part) + length (total second_part) + length info.kind < size
  lengths = omega (
    arith,
    ap length whole,
    length-append (total first_part) (total second_part ++ info.kind),
    length-append (total second_part) info.kind,
  )

  texts_first : All (λ p. IsText p.0) first_part
  unfolding first_part delim
  texts_first = (tid, (omega arith, (turl, (omega arith, (tname, (omega arith, tt))))))

  texts_second : All (λ p. IsText p.0) second_part
  unfolding second_part delim
  texts_second = (ttime, (omega arith, (tuser, (omega arith, tt))))

  suffix_array :
      get_file_suffix (some (info.filename ++ 0 ∷ rc)) (some (zeros suffix_len))
      ≡ done (pos 0, some (put (zeros suffix_len) info.kind))
  suffix_array =
      rw is_kind
        (get_file_suffix-suffix_of info.filename rc (zeros suffix_len) tname (rw is_kind at short))

  first_step :
      strcat_all (zeros size) (map array_of first_part) ≡ done (padded size (total first_part))
  first_step =
      rw sub-zero at (strcat_all-padded size [] first_part tt texts_first (omega (arith, lengths)))

  second_step :
      strcat_all (padded size (total first_part)) (map array_of second_part)
      ≡ done (padded size (total first_part ++ total second_part))
  second_step =
      strcat_all-padded size (total first_part) second_part (total-IsText first_part texts_first)
        texts_second (omega (arith, lengths))

  last_step :
      strcat
        (padded size (total first_part ++ total second_part))
        (put (zeros suffix_len) info.kind)
      ≡ done (padded size (print info))
  last_step =
      strcat-padded size (total first_part ++ total second_part) info.kind
        (drop (suc (length info.kind)) (zeros suffix_len))
        (All-append (λ c. c ≢ 0) (total first_part) (total second_part)
          (total-IsText first_part texts_first) (total-IsText second_part texts_second))
        tkind (omega (arith, lengths, length-append (total first_part) (total second_part)))
      ∙ ap (λ t. done (padded size t))
          (append_assoc (total first_part) (total second_part) info.kind ∙ whole)

  -- In memory of `size` cleared bytes `make_value` makes the text of the documented format, with the
  -- suffix of the file's name for the type, provided the text and a byte 0 fit in, the suffix is
  -- shorter than its array of 8 bytes, and the time's array holds a text with or without spaces
  -- around it. What stands in the arrays behind the texts does not matter.
  pub make_value-print :
      make_value
        (zeros size)
        create_time
        (info.file_id ++ 0 ∷ ra)
        (info.url ++ 0 ∷ rb)
        (info.filename ++ 0 ∷ rc)
        (info.user ++ 0 ∷ re)
      ≡ done (padded size (print info))
  unfolding make_value first_part second_part delim
  make_value-print = rw (first_step, trimmed, second_step, suffix_array) last_step
