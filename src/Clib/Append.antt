-- ===== src/Clib/Append.antt =====
-- Lemmas on `strncat`, and on a `strncpy` that pads with zeros.
use distributed_storage.Base.{
  ap, ◌∙◌, sym, append-nil, ℕ, zero, suc, ◌+◌, ◌-◌, ◌≤◌, ◌<◌, ◌≡◌, refl, [], ◌∷◌, ◌++◌, arith,
  length, drop, append_assoc, ne→==, sub-zero, length-append, suc-sub-suc,
}
use distributed_storage.Clib.Exec.{done}
use distributed_storage.Clib.Strings.{
  Bytes, IsText, zeros, padded, strncpy, strncpy0, strncat, strcat, strcpy, memset,
}
use distributed_storage.Clib.Copy.{padded-suc, drop-zeros, length-zeros, memset_lem}

strncpy0-text :
    (t s dst : Bytes)
    → IsText t
    → length t < length dst
    → strncpy0 dst (t ++ s) (length t) ≡ done (t ++ 0 ∷ drop (suc (length t)) dst)
unfolding strncpy0
strncpy0-text t s [] h lt = absurd (omega arith)
strncpy0-text [] s (d ∷ dst) h lt = refl
strncpy0-text (c ∷ t) s (d ∷ dst) h lt = rw (ne→== c 0 h.0, strncpy0-text t s dst h.1 (omega arith))

strncat-text :
    (u r t s : Bytes)
    → IsText u
    → IsText t
    → length t ≤ length r
    → strncat (u ++ 0 ∷ r) (t ++ s) (length t) ≡ done (u ++ (t ++ 0 ∷ drop (length t) r))
unfolding strncat
strncat-text [] r t s hu ht le = strncpy0-text t s (0 ∷ r) ht (omega arith)
strncat-text (c ∷ u) r t s hu ht le = rw (ne→== c 0 hu.0, strncat-text u r t s hu.1 ht le)

-- `strncat` of a whole text onto an array that was cleared and holds `u`.
pub strncat-padded :
    (size : ℕ) (u t s : Bytes)
    → IsText u
    → IsText t
    → length u + length t < size
    → strncat (padded size u) (t ++ s) (length t) ≡ done (padded size (u ++ t))
strncat-padded size u t s hu ht h =
    let k = size - length u - 1 in
    let fits : length (u ++ t) < size = omega (arith, length-append u t) in
    let same : k - length t ≡ size - length (u ++ t) - 1 = omega (arith, length-append u t) in
    rw (
      padded-suc size u (omega arith),
      padded-suc size (u ++ t) fits,
      strncat-text u (zeros k) t s hu ht (omega (arith, length-zeros k)),
      drop-zeros (length t) k,
      append_assoc,
      same,
    )

-- A text that is shorter than `n` is followed by zeros up to `n` bytes.
pub strncpy-pads :
    (t s dst : Bytes) (n : ℕ)
    → IsText t
    → length t ≤ n
    → n ≤ length dst
    → strncpy dst (t ++ 0 ∷ s) n ≡ done (padded n t ++ drop n dst)
unfolding strncpy
strncpy-pads [] s dst zero h le fits = refl
strncpy-pads [] s [] (suc n) h le fits = absurd (omega arith)
strncpy-pads [] s (d ∷ dst) (suc n) h le fits = rw sub-zero (memset_lem (d ∷ dst) (suc n) fits)
strncpy-pads (c ∷ t) s dst zero h le fits = absurd (omega arith)
strncpy-pads (c ∷ t) s [] (suc n) h le fits = absurd (omega arith)
strncpy-pads (c ∷ t) s (d ∷ dst) (suc n) h le fits =
    rw (ne→== c 0 h.0, strncpy-pads t s dst n h.1 (omega arith) (omega arith), suc-sub-suc)

drop-length : (b : Bytes) → drop (length b) b ≡ []
drop-length [] = refl
drop-length (x ∷ b) = drop-length b

pub memset-whole : (b : Bytes) (n : ℕ) → length b ≡ n → memset b n ≡ done (zeros n)
memset-whole b n e =
    memset_lem b n (omega (arith, e))
    ∙ ap (λ k. done (zeros n ++ drop k b)) (sym e)
    ∙ ap (λ x. done (zeros n ++ x)) (drop-length b)
    ∙ rw append-nil

strncpy0-strcpy :
    (t s dst : Bytes) (n : ℕ)
    → IsText t
    → length t ≤ n
    → strncpy0 dst (t ++ 0 ∷ s) n ≡ strcpy dst (t ++ 0 ∷ s)
unfolding strncpy0 strcpy
strncpy0-strcpy t s [] n h le = refl
strncpy0-strcpy [] s (d ∷ dst) zero h le = refl
strncpy0-strcpy [] s (d ∷ dst) (suc n) h le = refl
strncpy0-strcpy (c ∷ t) s (d ∷ dst) zero h le = absurd (omega arith)
strncpy0-strcpy (c ∷ t) s (d ∷ dst) (suc n) h le =
    rw (ne→== c 0 h.0, strncpy0-strcpy t s dst n h.1 (omega arith))

-- A bound that the text does not reach changes nothing.
pub strncat-strcat :
    (t s dst : Bytes) (n : ℕ)
    → IsText t
    → length t ≤ n
    → strncat dst (t ++ 0 ∷ s) n ≡ strcat dst (t ++ 0 ∷ s)
unfolding strncat strcat
strncat-strcat t s [] n h le = refl
strncat-strcat t s (d ∷ dst) n h le =
    rw (strncpy0-strcpy t s (d ∷ dst) n h le, strncat-strcat t s dst n h le)
