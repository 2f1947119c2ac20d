-- ===== src/Usefull/Storage/Url.antt =====
-- `get_url` on the output of the storage's program.
use distributed_storage.Base.{
  ℕ, suc, ◌+◌, ◌-◌, ◌&&◌, ◌≤◌, ◌<◌, ◌≡◌, ◌≢◌, ap, ◌∙◌, some, [], ◌∷◌, ◌++◌, arith, length, drop,
  All, All-append, append_assoc, length-append, ltb, if◌then◌else◌, Bool-cases, ltb→lt, ltb→le, inl,
  inr, pos, add-zero,
}
use distributed_storage.Clib.Copy.{strcat-padded, drop-zeros, padded-suc}
use distributed_storage.Clib.Exec.{done, fault}
use distributed_storage.Clib.First.{Absent, Absent-append, starts_with-append, strstr-first}
use distributed_storage.Clib.Put.{put_text, put_text-fault}
use distributed_storage.Clib.Search.{
  text_of-ends, tail_at-append, tail_at-append_self, strstr-append,
}
use distributed_storage.Clib.Strings.{
  Bytes, IsText, codes, zeros, padded, strstr, tail_at, starts_with, text_of,
}
use distributed_storage.Usefull.Storage.{address_key, url_of, get_url, get_url_forked}
use distributed_storage.Usefull.Storage.Answers.{Answers, read_child-Answers}
use distributed_storage.Usefull.System.{System}
use distributed_storage.Usefull.TrimSpace.{may_copy}
use distributed_storage.Usefull.TrimSpace.Spaced.{
  IsSpaced, IsSpaced-IsText, trimmed-IsText, trim_space-IsSpaced,
}

-- No byte 0 and no end of a line.
abbrev pub IsLine : Bytes → Type 0
IsLine = All (λ c. (c ≢ 0) × (c ≢ 10))

IsLine-IsText : (l : Bytes) → IsLine l → IsText l
IsLine-IsText [] h = tt
IsLine-IsText (c ∷ l) h = (h.0.0, IsLine-IsText l h.1)

module _ (pre line rest : Bytes) (tp : IsText pre)
    (first : Absent address_key (pre ++ address_key) (length pre)) (hl : IsLine line) where
  abbrev pub output : Bytes
  output = pre ++ (address_key ++ (line ++ 10 ∷ rest))

  found_key : strstr output address_key ≡ done (some (length pre))
  found_key =
      let tail = line ++ 10 ∷ rest in
      strstr-first pre b's' (codes "ource ip address:" ++ tail) address_key tp
        (Absent-append address_key pre tail first) (starts_with-append address_key tail)

  behind_key : tail_at output (length pre + length address_key) ≡ done (line ++ 10 ∷ rest)
  behind_key =
      tail_at-append pre (address_key ++ (line ++ 10 ∷ rest)) (length address_key)
      ∙ tail_at-append_self address_key (line ++ 10 ∷ rest)

  line_end : strstr (line ++ 10 ∷ rest) (codes "\n") ≡ done (some (length line))
  line_end =
      strstr-append line (10 ∷ rest) 10 [] hl
      ∙ unfold strstr starts_with in ap (λ n. done (some n)) (add-zero (length line))

  url_of-overflow : (file_id url : Bytes) → 16 ≤ length line → url_of output file_id url ≡ fault
  unfolding url_of
  url_of-overflow file_id url long = rw (
    found_key,
    behind_key,
    line_end,
    put_text-fault line (10 ∷ rest) (zeros 16) (IsLine-IsText line hl) (omega arith),
  )

-- The url that is made: the address and the file's id.
abbrev pub file_url : Bytes → Bytes → Bytes
file_url ip file_id = ((codes "http://" ++ ip) ++ codes "/") ++ file_id

module _ (pre a m : Bytes) (y : ℕ) (z file_id rf : Bytes) (tp : IsText pre)
    (first : Absent address_key (pre ++ address_key) (length pre)) (ok : IsSpaced a m y z)
    (hl : IsLine (a ++ (m ++ y ∷ z))) (tf : IsText file_id) where
  abbrev ip : Bytes
  ip = m ++ y ∷ []

  abbrev line : Bytes
  line = a ++ (m ++ y ∷ z)

  url_of-fits :
      (rest : Bytes)
      → length line < 16
      → length (file_url ip file_id) < 256
      → url_of (output pre line rest tp first hl) (file_id ++ 0 ∷ rf) (zeros 256) ≡ (
          if may_copy (length a) (length ip)
          then done (padded 256 (file_url ip file_id))
          else fault)
  unfolding url_of
  url_of-fits rest short fits =
      let t₁ =
        All-append (λ c. c ≢ 0) (codes "http://") ip (omega arith) (trimmed-IsText a m y z ok) in
      let t₂ = All-append (λ c. c ≢ 0) (codes "http://" ++ ip) (codes "/") t₁ (omega arith) in
      let n₁ = length-append (codes "http://") ip in
      let n₂ = length-append (codes "http://" ++ ip) (codes "/") in
      let n₃ = length-append ((codes "http://" ++ ip) ++ codes "/") file_id in
      let after = drop (suc (length line)) (zeros 16) in
      rw
        (
          found_key pre line rest tp first hl,
          behind_key pre line rest tp first hl,
          line_end pre line rest tp first hl,
          put_text line (10 ∷ rest) (zeros 16) (IsSpaced-IsText a m y z ok) short,
          trim_space-IsSpaced a m y z ok after,
        )
        (elim (Bool-cases (may_copy (length a) (length ip))) [
          | inr shared ↦ rw shared
          | inl free ↦ rw (
            free,
            strcat-padded 256 [] (codes "http://") [] tt (omega arith) (omega arith),
            strcat-padded 256 (codes "http://") ip (drop (suc (length ip)) (line ++ 0 ∷ after))
                (omega arith) (trimmed-IsText a m y z ok) (omega (arith, n₁, n₂, n₃)),
            strcat-padded 256 (codes "http://" ++ ip) (codes "/") [] t₁ (omega arith)
                (omega (arith, n₁, n₂, n₃)),
            strcat-padded 256 ((codes "http://" ++ ip) ++ codes "/") file_id rf t₂ tf
                (omega (arith, n₃)),
          )
        ])

  -- Where the program prints the address's line, in an output of fewer than 256 bytes, get_url
  -- makes the url of the address and the file's id, if the line's text behind the key has fewer
  -- than 16 bytes, and has no space in front of the address or as many as it has bytes. A longer
  -- text is written past the end of ip_buf, and behind fewer spaces, as behind one, trim_space
  -- copies between parts of ip_buf that overlap: both are undefined. The address is not empty and
  -- neither begins nor ends with a space, the line is the first with the key, the url fits into
  -- its cleared array, the pipe is made and the process is duplicated.
  pub get_url-file_url :
      {W : Type 0} (S : System W) (w w' : W) (rest : Bytes)
      → Answers S w (output pre line rest tp first hl) w'
      → length (output pre line rest tp first hl) < 256
      → length (file_url ip file_id) < 256
      → get_url S (file_id ++ 0 ∷ rf) (zeros 256) w ≡ (
          if ltb (length line) 16 && may_copy (length a) (length ip)
          then done ((pos 0, padded 256 (file_url ip file_id)), w')
          else fault)
  unfolding get_url get_url_forked
  get_url-file_url S w w' rest run read_short fits =
      let out = output pre line rest tp first hl in
      let zs = drop (length out) (zeros 256) in
      let filled : out ++ zs ≡ out ++ 0 ∷ zeros (256 - length out - 1) =
        ap (λ t. out ++ t) (drop-zeros (length out) 256) ∙ padded-suc 256 out read_short in
      let (t, logged) = text_of-ends out (zeros (256 - length out - 1)) in
      let is_text : text_of (out ++ zs) ≡ done t = rw filled logged in
      let room : length out ≤ length (zeros 256) = run.short in
      let longer : out ++ zs ≡ output pre line (rest ++ zs) tp first hl = simp append_assoc in
      let read = read_child-Answers S w w' out (zeros 256) run room in
      elim (Bool-cases (ltb (length line) 16)) [
        | inl short ↦
            rw
              (
                run.opened,
                run.forked,
                read,
                is_text,
                longer,
                url_of-fits (rest ++ zs) (ltb→lt (length line) 16 short) fits,
                short,
              )
              (elim (Bool-cases (may_copy (length a) (length ip))) [
                | inl free ↦ rw free
                | inr shared ↦ rw shared
              ])
        | inr long ↦ rw (
          run.opened,
          run.forked,
          read,
          is_text,
          longer,
          url_of-overflow pre line (rest ++ zs) tp first hl (file_id ++ 0 ∷ rf) (zeros 256)
              (ltb→le (length line) 16 long),
          long,
        )
      ]
