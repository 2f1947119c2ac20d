-- ===== src/DataUse/Replace/Ending.antt =====
-- The loop of `str_replace` ends: each round passes over an occurrence of the key.
use distributed_storage.Base.{
  ℕ, zero, suc, ◌+◌, ◌-◌, ◌<◌, ◌≤◌, ◌≡◌, ◌≢◌, refl, ap, sym, ◌∙◌, inl, inr, All-drop, Option, none,
  some, ◌∷◌, [], ◌++◌, length, arith, drop, length-drop, ne→==,
}
use distributed_storage.Clib.After.{After, After-bind, After-done}
use distributed_storage.Clib.Exec.{done, Exec-cases}
use distributed_storage.Clib.Search.{strstr_at-tail, tail_at-add}
use distributed_storage.Clib.Strings.{
  Bytes, IsText, cstring, strlen, strstr, strstr_at, tail_at, strcat, starts_with, strncpy, strncat,
  strncpy0, strcpy,
}
use distributed_storage.Clib.Within.{strlen-split, strstr-within, tail_at-text, shift-eq-some}
use distributed_storage.DataUse.Replace.{copy_part, copy_back, replace_loop, str_replace}

-- The fuel did not run out.
abbrev Ended {ℓ} : {A : Type ℓ} → Option A → Type 0
Ended none = ⊥
Ended (some a) = Unit

module _ (src replace : Bytes) (k : ℕ) (ks : Bytes) (tk : IsText (k ∷ ks)) where
  -- Behind an occurrence less of the text is left.
  behind :
      (t r : Bytes) (q p : ℕ)
      → IsText t
      → tail_at src q ≡ done (t ++ 0 ∷ r)
      → strstr_at src q (k ∷ ks) ≡ done (some p)
      → (t' : Bytes) × (tail_at src (p + length (k ∷ ks)) ≡ done (t' ++ 0 ∷ r))
        × IsText t'
        × (length t' < length t)
  behind t r q p text at e =
      let same = strstr_at-tail src q (t ++ 0 ∷ r) (k ∷ ks) at in
      let (i, here, sum) = shift-eq-some q p (strstr (t ++ 0 ∷ r) (k ∷ ks)) (rw same at e) in
      let n = i + length (k ∷ ks) in
      let room : n ≤ length t = strstr-within ks t r k i tk text here in
      let place : q + n ≡ p + length (k ∷ ks) = omega (arith, sum) in
      (
        drop n t,
        ap (tail_at src) (sym place)
            ∙ tail_at-add src q n (t ++ 0 ∷ r) at
            ∙ tail_at-text t r n room,
        All-drop (λ c. c ≢ 0) n t text,
        omega (arith, length-drop n t, room),
      )

  -- `t` is what is left of the text.
  replace_loop-Ended :
      (fuel : ℕ) (t r : Bytes) (q count : ℕ) (buf : Bytes)
      → length t < fuel
      → IsText t
      → tail_at src q ≡ done (t ++ 0 ∷ r)
      → After Ended (replace_loop fuel src (k ∷ ks) replace q count buf)
  unfolding replace_loop
  replace_loop-Ended zero t r q count buf lt text at = absurd (omega arith)
  replace_loop-Ended (suc fuel) t r q count buf lt text at =
      elim (Exec-cases (strstr_at src q (k ∷ ks))) [
        | inl (none, e) ↦ rw e tt
        | inl (some p, e) ↦
            let (t', at', text', shorter) = behind t r q p text at e in
            rw e (
              After-bind Ended (tail_at src q) _ λ from _.
                After-bind Ended (copy_part (count + 1) buf from (p - q)) _ λ copied _.
                  After-bind Ended (strcat copied (cstring replace)) _ λ written _.
                    replace_loop-Ended fuel t' r (p + length (k ∷ ks)) (count + 1) written
                      (omega (arith, shorter)) text' at')
        | inr (inl (n, e)) ↦ rw e tt
        | inr (inr e) ↦ rw e tt
      ]

-- With a key that is not empty the fuel of the loop never runs out, whatever the texts and the block are: the
-- replacement ends. A byte of the key is not 0.
pub str_replace-Ended :
    (src replace block : Option Bytes) (k : ℕ) (ks : Bytes)
    → IsText (k ∷ ks)
    → ¬ (str_replace src (some (k ∷ ks)) replace block ≡ done none)
unfolding str_replace
str_replace-Ended src replace block k ks tk e =
    After-done Ended (str_replace src (some (k ∷ ks)) replace block) none (ends src replace block) e
  where
    ends :
        (src replace block : Option Bytes)
        → After Ended (str_replace src (some (k ∷ ks)) replace block)
    ends none replace block = tt
    ends (some src) none block = tt
    ends (some src) (some replace) none = After-bind Ended (strlen src) _ λ n e. tt
    ends (some src) (some replace) (some block) = After-bind Ended (strlen src) _ λ n e.
        let (t, r, is, text, size) = strlen-split src n e in
        let at : tail_at src 0 ≡ done (t ++ 0 ∷ r) = unfold tail_at in ap done is in
        let loop =
          replace_loop-Ended src replace k ks tk (suc n) t r 0 0 block (omega (arith, size)) text
            at in
        elim (Exec-cases (replace_loop (suc n) src (k ∷ ks) replace 0 0 block)) [
          | inl (none, e') ↦
              absurd (
                After-done Ended (replace_loop (suc n) src (k ∷ ks) replace 0 0 block) none loop e')
          | inl (some o, e') ↦ rw e' (After-bind Ended (copy_back src n o) _ λ o' _. tt)
          | inr (inl (m, e')) ↦ rw e' tt
          | inr (inr e') ↦ rw e' tt
        ]

round_empty :
    (fuel c count : ℕ) (src block : Bytes)
    → replace_loop (suc fuel) (c ∷ src) [] [] 0 count (0 ∷ block)
      ≡ replace_loop fuel (c ∷ src) [] [] 0 (count + 1) (0 ∷ block)
unfolding replace_loop strstr_at strstr starts_with tail_at copy_part
round_empty fuel c zero src block = unfold strncpy strcat strcpy in refl
round_empty fuel c (suc count) src block =
    rw (ne→== (suc count + 1) 1 (omega arith)) (unfold strncat strncpy0 strcat strcpy in refl)

-- With an empty key and an empty replacement no amount of fuel is enough: each round finds the key where
-- it stands, and copies nothing. The text is an array of one byte at least, and the block begins with
-- a byte 0.
pub replace_loop_endless :
    (fuel c count : ℕ) (src block : Bytes)
    → replace_loop fuel (c ∷ src) [] [] 0 count (0 ∷ block) ≡ done none
replace_loop_endless zero c count src block = unfold replace_loop in refl
replace_loop_endless (suc fuel) c count src block =
    round_empty fuel c count src block ∙ replace_loop_endless fuel c (count + 1) src block
