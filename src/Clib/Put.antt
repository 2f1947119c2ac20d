-- ===== src/Clib/Put.antt =====
-- `strncpy(dst, src, n); dst[n] = '\0'`, as the program cuts a text out of another.
use distributed_storage.Base.{
  ℕ, zero, suc, ◌≤◌, ◌<◌, ◌≡◌, refl, [], ◌∷◌, ◌++◌, arith, length, drop, length-append, length-drop,
  ◌⊎◌, inl, inr,
}
use distributed_storage.Clib.Exec.{done, fault}
use distributed_storage.Clib.Strings.{
  Bytes, IsText, codes, cstring, memset, strncpy, set_at, put_prefix,
}
use distributed_storage.Clib.Copy.{strncpy-text, strncpy-fault}

set_at-append :
    (u : Bytes) (d : ℕ) (s : Bytes) (c : ℕ) → set_at (u ++ d ∷ s) (length u) c ≡ done (u ++ c ∷ s)
unfolding set_at
set_at-append [] d s c = refl
set_at-append (x ∷ u) d s c = rw (set_at-append u d s c)

set_at-fault : (b : Bytes) (i c : ℕ) → length b ≤ i → set_at b i c ≡ fault
unfolding set_at
set_at-fault [] i c h = refl
set_at-fault (x ∷ b) zero c h = absurd (omega arith)
set_at-fault (x ∷ b) (suc i) c h = rw (set_at-fault b i c (omega arith))

drop-cons : (n : ℕ) (b : Bytes) → n < length b → (d : ℕ) × (drop n b ≡ d ∷ drop (suc n) b)
drop-cons n [] h = absurd (omega arith)
drop-cons zero (d ∷ b) h = (d, refl)
drop-cons (suc n) (x ∷ b) h = drop-cons n b (omega arith)

-- The text and a byte 0 are written, and nothing behind them.
pub put_text :
    (t s dst : Bytes)
    → IsText t
    → length t < length dst
    → put_prefix dst (t ++ s) (length t) ≡ done (t ++ 0 ∷ drop (suc (length t)) dst)
unfolding put_prefix
put_text t s dst h lt =
    let (d, e) = drop-cons (length t) dst lt in
    rw (strncpy-text t s dst h (omega arith), e) (set_at-append t d (drop (suc (length t)) dst) 0)

-- An array with no room for the byte 0 is written past its end.
pub put_text-fault :
    (t s dst : Bytes)
    → IsText t
    → length dst ≤ length t
    → put_prefix dst (t ++ s) (length t) ≡ fault
unfolding put_prefix
put_text-fault t s dst h le = elim (split (length t) (length dst) le) [
  | inl full ↦ rw (strncpy-text t s dst h (omega arith)) (
      set_at-fault (t ++ drop (length t) dst) (length t) 0
        (omega (arith, length-append t (drop (length t) dst), length-drop (length t) dst)))
  | inr over ↦ rw (strncpy-fault dst (t ++ s) (length t) over)
]
  where
    split : (n m : ℕ) → m ≤ n → (m ≡ n) ⊎ (m < n)
    split n m le = ground arith

-- The copy of "null" with its byte 0.
pub strncpy-null :
    (buf : Bytes)
    → 4 < length buf
    → strncpy buf (cstring (codes "null")) 5 ≡ done (codes "null" ++ 0 ∷ drop 5 buf)
unfolding strncpy memset
strncpy-null (_ ∷ _ ∷ _ ∷ _ ∷ _ ∷ buf) h = refl
strncpy-null _ h = absurd (omega arith)
