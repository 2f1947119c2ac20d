-- ===== src/Usefull/Upload/Lines.antt =====
-- The lines of a form's body: where `upload_file` finds their ends.
use distributed_storage.Base.{
  ℕ, suc, ◌+◌, ◌≡◌, ◌≢◌, refl, ap, ◌∙◌, sym, some, [], ◌∷◌, ◌++◌, length, drop, All, arith,
  add-zero, add-one, drop-append,
}
use distributed_storage.Clib.Exec.{done}
use distributed_storage.Clib.Strings.{Bytes, IsText, tail_at, strstr, strstr_at, starts_with, zeros}
use distributed_storage.Clib.Search.{
  tail_at-add, tail_at-append_self, strstr_at-tail, strstr-append,
}
use distributed_storage.Clib.Copy.{length-zeros}
use distributed_storage.Usefull.Upload.{crlf}

-- A line holds neither the byte 0 nor a carriage return.
abbrev pub IsLine : Bytes → Type 0
IsLine = All (λ c. (c ≢ 0) × (c ≢ 13))

pub IsLine-IsText : (l : Bytes) → IsLine l → IsText l
IsLine-IsText [] h = tt
IsLine-IsText (c ∷ l) h = (h.0.0, IsLine-IsText l h.1)

pub drop-cleared :
    (n : ℕ) (b : Bytes) → drop (suc n) (zeros (n + 1) ++ drop (n + 1) b) ≡ drop (suc n) b
drop-cleared n b =
    let e : n + 1 ≡ suc n = add-one n in
    let len : length (zeros (suc n)) ≡ suc n = length-zeros (suc n) in
    rw e (
      ap (λ k. drop k (zeros (suc n) ++ drop (suc n) b)) (sym len)
      ∙ drop-append (zeros (suc n)) (drop (suc n) b))

abbrev pub line : Bytes → Bytes → Bytes
line l y = l ++ 13 ∷ 10 ∷ y

strstr-crlf : (l y : Bytes) → IsLine l → strstr (line l y) crlf ≡ done (some (length l))
strstr-crlf l y h =
    strstr-append l (13 ∷ 10 ∷ y) 13 (10 ∷ []) h
    ∙ unfold strstr starts_with in ap (λ n. done (some n)) (add-zero (length l))

module _ (src : Bytes) where
  -- The end of the line that begins at `q`.
  pub end_of_line :
      (q : ℕ) (l y : Bytes)
      → tail_at src q ≡ done (line l y)
      → IsLine l
      → strstr_at src q crlf ≡ done (some (q + length l))
  end_of_line q l y at h = rw (strstr_at-tail src q (line l y) crlf at, strstr-crlf l y h)

  -- From one byte behind the start of a line's end the search finds the end of the next line.
  pub next_line :
      (s : ℕ) (l y : Bytes)
      → tail_at src s ≡ done (13 ∷ 10 ∷ line l y)
      → IsLine l
      → strstr_at src (s + 1) crlf ≡ done (some (s + 2 + length l))
  next_line s l y at h =
      let behind : tail_at src (s + 1) ≡ done (line (10 ∷ l) y) =
        tail_at-add src s 1 (13 ∷ 10 ∷ line l y) at ∙ unfold tail_at in refl in
      let ten : ◌≢◌ {A = ℕ} 10 0 × ◌≢◌ {A = ℕ} 10 13 = omega arith in
      end_of_line (s + 1) (10 ∷ l) y behind (ten, h) ∙ ap (λ n. done (some n)) (omega arith)

  pub tail_behind :
      (s : ℕ) (l y : Bytes)
      → tail_at src s ≡ done (13 ∷ 10 ∷ line l y)
      → tail_at src (s + 2 + length l) ≡ done (13 ∷ 10 ∷ y)
  tail_behind s l y at =
      let behind : tail_at src (s + 2) ≡ done (line l y) =
        tail_at-add src s 2 (13 ∷ 10 ∷ line l y) at ∙ unfold tail_at in refl in
      tail_at-add src (s + 2) (length l) (line l y) behind ∙ tail_at-append_self l (13 ∷ 10 ∷ y)
