-- ===== src/Usefull/Upload/Form.antt =====
-- `upload_file` on the body that a browser sends: the file's name and bytes are what it sent.
use distributed_storage.Base.{
  ℕ, suc, ◌+◌, ◌-◌, ◌<◌, ◌≤◌, take-append, leb, le→leb, true, pos, ◌≡◌, ◌≢◌, refl, ap, ◌∙◌, sym,
  some, ltb, le→ltb, [], ◌∷◌, ◌++◌, length, drop, arith, append_assoc, length-append, zero-add,
  All-append, false, Bool, ◌&&◌, if◌then◌else◌, none, minus_one,
}
use distributed_storage.Clib.Exec.{done}
use distributed_storage.Clib.Strings.{
  Bytes, IsText, codes, tail_at, strstr, strstr_at, put_prefix, zeros,
}
use distributed_storage.Clib.Search.{
  length-tail_at, text_of-text, tail_at-add, tail_at-append_self, tail_at-append, strstr_at-tail,
  shift-zero,
}
use distributed_storage.Clib.First.{Absent, strstr-first, starts_with-append}
use distributed_storage.Clib.Copy.{memset_lem, length-zeros}
use distributed_storage.Clib.Put.{put_text}
use distributed_storage.Usefull.Memstr.{memstr}
use distributed_storage.Usefull.Memstr.First.{memstr-first}
use distributed_storage.Usefull.Upload.{extract_data, upload_file, dashes, crlf_loop, extract_name}
use distributed_storage.Usefull.Upload.Lines.{
  IsLine, IsLine-IsText, line, drop-cleared, end_of_line, next_line, tail_behind,
}

-- The body of a form with one file: the boundary, the line that names the file, the line with its
-- type, an empty line, and its bytes up to the closing boundary.
module _ (boundary disposition name type bytes rest : Bytes) (hb : IsLine boundary)
    (hd : IsLine disposition) (hn : IsLine name) (ht : IsLine type) where
  abbrev second_line : Bytes
  second_line = disposition ++ (codes "filename=\"" ++ (name ++ b'"' ∷ []))

  abbrev pub content : Bytes
  content = bytes ++ (13 ∷ 10 ∷ (dashes ++ rest))

  abbrev pub body : Bytes
  body = line boundary (line second_line (line type (line [] content)))

  abbrev s₂ : ℕ
  s₂ = length boundary + 2 + length second_line

  abbrev s₃ : ℕ
  s₃ = s₂ + 2 + length type

  second-IsLine : IsLine second_line
  second-IsLine =
      All-append (λ c. (c ≢ 0) × (c ≢ 13)) disposition (codes "filename=\"" ++ (name ++ b'"' ∷ []))
        hd
        (All-append (λ c. (c ≢ 0) × (c ≢ 13)) (codes "filename=\"") (name ++ b'"' ∷ [])
          (omega arith) (All-append (λ c. (c ≢ 0) × (c ≢ 13)) name (b'"' ∷ []) hn (omega arith)))

  at₁ :
      tail_at body (length boundary)
      ≡ done (13 ∷ 10 ∷ line second_line (line type (line [] content)))
  at₁ = tail_at-append_self boundary (13 ∷ 10 ∷ line second_line (line type (line [] content)))

  at₂ : tail_at body s₂ ≡ done (13 ∷ 10 ∷ line type (line [] content))
  at₂ = tail_behind body (length boundary) second_line (line type (line [] content)) at₁

  at₃ : tail_at body s₃ ≡ done (13 ∷ 10 ∷ line [] content)
  at₃ = tail_behind body s₂ type (line [] content) at₂

  at₄ : tail_at body (s₃ + 2 + 0) ≡ done (13 ∷ 10 ∷ content)
  at₄ = tail_behind body s₃ [] content at₃

  two_lines : crlf_loop 2 body 0 0 ≡ done s₂
  unfolding crlf_loop
  two_lines = rw (
    end_of_line body 0 boundary (line second_line (line type (line [] content)))
        (unfold tail_at in refl) hb,
    zero-add,
    next_line body (length boundary) second_line (line type (line [] content)) at₁ second-IsLine,
  )

  four_lines : crlf_loop 4 body 0 0 ≡ done (s₃ + 2 + 0)
  unfolding crlf_loop
  four_lines = rw (
    end_of_line body 0 boundary (line second_line (line type (line [] content)))
        (unfold tail_at in refl) hb,
    zero-add,
    next_line body (length boundary) second_line (line type (line [] content)) at₁ second-IsLine,
    next_line body s₂ type (line [] content) at₂ ht,
    next_line body s₃ [] content at₃ tt,
  )

  abbrev pub named : Bytes
  named = name ++ b'"' ∷ 13 ∷ 10 ∷ line type (line [] content)

  abbrev pub before : Bytes
  before = boundary ++ 13 ∷ 10 ∷ disposition

  split_name : body ≡ before ++ (codes "filename=\"" ++ named)
  split_name = simp append_assoc

  before-IsText : IsText before
  before-IsText =
      All-append (λ c. c ≢ 0) boundary (13 ∷ 10 ∷ disposition) (IsLine-IsText boundary hb)
        (omega arith, (omega arith, IsLine-IsText disposition hd))

  module _
      (first : Absent
        (codes "filename=")
        (before ++ (codes "filename=\"" ++ named))
        (length before))
      (filename : Bytes) (room : length name < length filename) where
    found_name : strstr_at body 0 (codes "filename=") ≡ done (some (length before))
    found_name = rw split_name (
        strstr_at-tail (before ++ (codes "filename=\"" ++ named)) 0
          (before ++ (codes "filename=\"" ++ named)) (codes "filename=") (unfold tail_at in refl)
        ∙ shift-zero (strstr (before ++ (codes "filename=\"" ++ named)) (codes "filename="))
        ∙ strstr-first before b'f' (codes "ilename=\"" ++ named) (codes "filename=") before-IsText
            first (starts_with-append (codes "filename=") (b'"' ∷ named)))

    at_name : tail_at body (length before + 10) ≡ done named
    at_name =
        rw split_name
          (tail_at-append before (codes "filename=\"" ++ named) 10 ∙ unfold tail_at in refl)

    put_name :
        put_prefix (zeros (length name + 1) ++ drop (length name + 1) filename) named (length name)
        ≡ done (name ++ 0 ∷ drop (suc (length name)) filename)
    put_name =
        let n = length name in
        let cleared = zeros (n + 1) ++ drop (n + 1) filename in
        let fits : n < length cleared =
          omega
            (arith, length-append (zeros (n + 1)) (drop (n + 1) filename), length-zeros (n + 1)) in
        put_text name (b'"' ∷ 13 ∷ 10 ∷ line type (line [] content)) cleared (IsLine-IsText name hn)
          fits
        ∙ ap (λ x. done (name ++ 0 ∷ x)) (drop-cleared n filename)

    extract_name-body :
        extract_name body filename ≡ done (name ++ 0 ∷ drop (suc (length name)) filename)
    unfolding extract_name
    extract_name-body =
        let len : s₂ - 1 - (length before + 10) ≡ length name = omega (arith, sizes) in
        let ahead : ltb s₂ (length before + 10 + 1) ≡ false =
          le→ltb s₂ (length before + 10 + 1) (omega (arith, sizes)) in
        rw
          (
            found_name,
            two_lines,
            ahead,
            len,
            memset_lem filename (length name + 1) (omega arith),
            at_name,
          )
          put_name
      where
        sizes : s₂ ≡ length before + 10 + length name + 1
        sizes = omega (
          arith,
          length-append boundary (13 ∷ 10 ∷ disposition),
          length-append disposition (codes "filename=\"" ++ (name ++ b'"' ∷ [])),
          length-append name (b'"' ∷ []),
        )

  module _ (len : ℕ) (hi : len ≤ length body) (lo : length body ≤ len + length rest)
      (first : Absent dashes content (length bytes + 2)) where
    p : ℕ
    p = s₃ + 2 + 0 + 2

    at_data : tail_at body p ≡ done content
    unfolding p
    at_data = tail_at-add body (s₃ + 2 + 0) 2 (13 ∷ 10 ∷ content) at₄ ∙ unfold tail_at in refl

    found_dashes :
        memstr (some content) (pos (len - p)) (some dashes) ≡ done (some (length bytes + 2))
    found_dashes =
        let ends = bytes ++ 13 ∷ 10 ∷ [] in
        let split : ends ++ (dashes ++ rest) ≡ content =
          append_assoc bytes (13 ∷ 10 ∷ []) (dashes ++ rest) in
        let size : length ends ≡ length bytes + 2 = length-append bytes (13 ∷ 10 ∷ []) in
        let all = length-tail_at body content p at_data in
        let sizes = ap length split in
        let parts = length-append ends (dashes ++ rest) in
        let behind = length-append dashes rest in
        rw (split, size) at
          (memstr-first b'-' (codes "--------") ends rest (len - p) (omega (arith, all, sizes))
            (omega (arith, all, sizes, parts, behind)) (rw (sym split, sym size) at first))

    extract_data-body : (can_open : Bool) → extract_data body len can_open ≡ done bytes
    unfolding extract_data p
    extract_data-body can_open =
        let all = length-tail_at body content p at_data in
        let from : leb p len ≡ true = le→leb p len (
          omega (
            arith,
            all,
            length-append bytes (13 ∷ 10 ∷ (dashes ++ rest)),
            length-append dashes rest,
          )) in
        let two : ltb (length bytes + 2) 2 ≡ false = le→ltb (length bytes + 2) 2 (omega arith) in
        let same : length bytes + 2 - 2 ≡ length bytes = omega arith in
        let fine : can_open && false ≡ false = elim can_open as (λ k. (k && false) ≡ false) [
          | true ↦ refl
          | false ↦ refl
        ] in
        rw (
          four_lines,
          at_data,
          from,
          found_dashes,
          two,
          fine,
          same,
          take-append bytes (13 ∷ 10 ∷ (dashes ++ rest)),
        )

    -- From a form's body with one file upload_file writes a file with the name between the quotes
    -- and the bytes in front of the dashes, and returns 0, and where fopen fails it writes nothing
    -- and returns -1; in both cases its array holds the name with a byte 0 behind it. The array
    -- has room for the name and the byte 0, the lines in front of the bytes hold no carriage
    -- return and no byte 0, the first "filename=" is that of the name, the bytes are not
    -- interrupted by nine dashes, and the length passes the dashes behind them and lies in the
    -- body.
    pub upload_file-body :
        (filename : Bytes) (can_open : Bool)
        → length name < length filename
        → Absent (codes "filename=") (before ++ (codes "filename=\"" ++ named)) (length before)
        → upload_file body len filename can_open
          ≡ done (
              if can_open
              then (pos 0, name ++ 0 ∷ drop (suc (length name)) filename, some (name, bytes))
              else (minus_one, name ++ 0 ∷ drop (suc (length name)) filename, none))
    unfolding upload_file
    upload_file-body filename can_open room named_first = rw (
      extract_name-body named_first filename room,
      extract_data-body can_open,
      text_of-text name (drop (suc (length name)) filename) (IsLine-IsText name hn),
    )
