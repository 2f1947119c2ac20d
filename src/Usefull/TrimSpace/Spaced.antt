-- ===== src/Usefull/TrimSpace/Spaced.antt =====
-- `trim_space` on an array that holds a text with spaces around it.
use distributed_storage.Base.{
  ℕ, suc, ◌≡◌, ◌≢◌, false, [], ◌∷◌, ◌++◌, All-append, append_assoc, length, drop, pos,
  if◌then◌else◌,
}
use distributed_storage.Clib.Chars.{isspace}
use distributed_storage.Clib.Exec.{done, fault}
use distributed_storage.Clib.Strings.{Bytes, IsText}
use distributed_storage.Usefull.TrimSpace.{may_copy, trim_space}
use distributed_storage.Usefull.TrimSpace.Trims.{
  IsBlank, IsBlank-IsText, head_of, trim_space-spaced,
}

-- The text `m` and its last byte `y` hold no byte 0 and neither begin nor end with a space; `a` and `z`
-- are spaces.
pub record IsSpaced (a m : Bytes) (y : ℕ) (z : Bytes) : Type 0 where
  pub before : IsBlank a
  pub behind : IsBlank z
  pub text : IsText m
  pub first : isspace (head_of m y) ≡ false
  pub last : isspace y ≡ false
  pub end : y ≢ 0

module _ (a m : Bytes) (y : ℕ) (z : Bytes) (ok : IsSpaced a m y z) where
  pub IsSpaced-IsText : IsText (a ++ (m ++ y ∷ z))
  IsSpaced-IsText =
      All-append (λ c. c ≢ 0) a (m ++ y ∷ z) (IsBlank-IsText a ok.before)
        (All-append (λ c. c ≢ 0) m (y ∷ z) ok.text (ok.end, IsBlank-IsText z ok.behind))

  pub trimmed-IsText : IsText (m ++ y ∷ [])
  trimmed-IsText = All-append (λ c. c ≢ 0) m (y ∷ []) ok.text (ok.end, tt)

  pub trim_space-IsSpaced :
      (r : Bytes)
      → trim_space ((a ++ (m ++ y ∷ z)) ++ 0 ∷ r) ≡ (
          if may_copy (length a) (length (m ++ y ∷ []))
          then done (
            pos 0,
            (m ++ y ∷ []) ++ 0 ∷ drop (suc (length (m ++ y ∷ []))) ((a ++ (m ++ y ∷ z)) ++ 0 ∷ r),
          )
          else fault)
  trim_space-IsSpaced r =
      let same : (a ++ (m ++ y ∷ z)) ++ 0 ∷ r ≡ a ++ (m ++ y ∷ (z ++ 0 ∷ r)) = simp append_assoc in
      rw same (trim_space-spaced a m y z r ok.before ok.behind ok.text ok.first ok.last ok.end)
