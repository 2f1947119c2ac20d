-- ===== src/Clib/Copy.antt =====
-- Lemmas on the functions that write: what they leave in the array, and when they leave it.
use distributed_storage.Base.{
  ℕ, zero, suc, ◌+◌, ◌-◌, ◌≤◌, ◌<◌, ◌≡◌, refl, [], ◌∷◌, ◌++◌, arith, length, drop, replicate,
  drop-replicate, append_assoc, length-replicate, length-append, ne→==,
}
use distributed_storage.Clib.Exec.{done, exits, fault, ◌>>=◌}
use distributed_storage.Clib.Strings.{
  Bytes, IsText, zeros, padded, cons_done, memset, strncpy, strcpy, strcat,
}

pub memset_lem :
    (dst : Bytes) (n : ℕ) → n ≤ length dst → memset dst n ≡ done (replicate n 0 ++ drop n dst)
unfolding memset
memset_lem dst zero h = refl
memset_lem [] (suc n) h = absurd (omega arith)
memset_lem (d ∷ dst) (suc n) h = rw (memset_lem dst n (omega arith))

pub memset-fault : (dst : Bytes) (n : ℕ) → length dst < n → memset dst n ≡ fault
unfolding memset
memset-fault dst zero h = absurd (omega arith)
memset-fault [] (suc n) h = refl
memset-fault (d ∷ dst) (suc n) h = rw (memset-fault dst n (omega arith))

-- A copy of exactly the text's length writes no byte 0 behind it.
pub strncpy-text :
    (t s dst : Bytes)
    → IsText t
    → length t ≤ length dst
    → strncpy dst (t ++ s) (length t) ≡ done (t ++ drop (length t) dst)
unfolding strncpy
strncpy-text [] s dst h le = refl
strncpy-text (c ∷ t) s [] h le = absurd (omega arith)
strncpy-text (c ∷ t) s (d ∷ dst) h le = rw (ne→== c 0 h.0, strncpy-text t s dst h.1 (omega arith))

-- Whatever the source is, `n` bytes are written.
pub strncpy-fault : (dst src : Bytes) (n : ℕ) → length dst < n → strncpy dst src n ≡ fault
unfolding strncpy
strncpy-fault dst src zero h = absurd (omega arith)
strncpy-fault [] src (suc n) h = refl
strncpy-fault (d ∷ dst) [] (suc n) h = refl
strncpy-fault (d ∷ dst) (c ∷ src) (suc n) h =
    ground (arith, memset-fault (d ∷ dst) (suc n) h, strncpy-fault dst src n)

pub strcpy-text :
    (t s dst : Bytes)
    → IsText t
    → length t < length dst
    → strcpy dst (t ++ 0 ∷ s) ≡ done (t ++ 0 ∷ drop (suc (length t)) dst)
unfolding strcpy
strcpy-text t s [] h le = absurd (omega arith)
strcpy-text [] s (d ∷ dst) h le = refl
strcpy-text (c ∷ t) s (d ∷ dst) h le = rw (ne→== c 0 h.0, strcpy-text t s dst h.1 (omega arith))

pub strcpy-fault :
    (t s dst : Bytes) → IsText t → length dst ≤ length t → strcpy dst (t ++ 0 ∷ s) ≡ fault
unfolding strcpy
strcpy-fault t s [] h le = refl
strcpy-fault [] s (d ∷ dst) h le = absurd (omega arith)
strcpy-fault (c ∷ t) s (d ∷ dst) h le = rw (ne→== c 0 h.0, strcpy-fault t s dst h.1 (omega arith))

strcat-append :
    (u r src : Bytes)
    → IsText u
    → strcat (u ++ 0 ∷ r) src ≡ (strcpy (0 ∷ r) src >>= λ x. done (u ++ x))
unfolding strcat
strcat-append [] r src h = elim (strcpy (0 ∷ r) src) as (λ m. m ≡ (m >>= λ x. done x)) [
  | done x ↦ refl
  | exits n ↦ refl
  | fault ↦ refl
]
strcat-append (c ∷ u) r src h =
    rw (ne→== c 0 h.0, strcat-append u r src h.1)
      (elim (strcpy (0 ∷ r) src)
        as (λ m. cons_done c (m >>= λ x. done (u ++ x)) ≡ (m >>= λ x. done (c ∷ (u ++ x)))) [
          | done x ↦ refl
          | exits n ↦ refl
          | fault ↦ refl
        ])

pub length-zeros : (n : ℕ) → length (zeros n) ≡ n
length-zeros n = length-replicate n 0

pub drop-zeros : (m n : ℕ) → drop m (zeros n) ≡ zeros (n - m)
drop-zeros m n = drop-replicate m n 0

-- An array that was cleared and then takes a text with no byte 0 behind it.
pub strncpy-zeros :
    (size : ℕ) (t s : Bytes)
    → IsText t
    → length t ≤ size
    → strncpy (zeros size) (t ++ s) (length t) ≡ done (padded size t)
strncpy-zeros size t s h le =
    rw (
      strncpy-text t s (zeros size) h (omega (arith, length-zeros size)),
      drop-zeros (length t) size,
    )

pub memset-zeros : (size n : ℕ) → n ≤ size → memset (zeros size) n ≡ done (zeros size)
unfolding memset
memset-zeros size zero h = refl
memset-zeros zero (suc n) h = absurd (omega arith)
memset-zeros (suc size) (suc n) h = rw (memset-zeros size n (omega arith))

zeros-suc : (n : ℕ) → 0 < n → zeros n ≡ 0 ∷ zeros (n - 1)
zeros-suc zero h = absurd (omega arith)
zeros-suc (suc n) h = let e : suc n - 1 ≡ n = omega arith in rw e

strcat-zeros :
    (n : ℕ) (u t s : Bytes)
    → IsText u
    → IsText t
    → length t ≤ n
    → strcat (u ++ 0 ∷ zeros n) (t ++ 0 ∷ s) ≡ done (u ++ (t ++ 0 ∷ zeros (n - length t)))
strcat-zeros n u t s hu ht h = rw (
  strcat-append u (zeros n) (t ++ 0 ∷ s) hu,
  strcpy-text t s (0 ∷ zeros n) ht room,
  drop-zeros (length t) n,
)
  where
    room : length t < suc (length (zeros n))
    room = omega (arith, length-zeros n)

pub padded-suc :
    (size : ℕ) (u : Bytes) → length u < size → padded size u ≡ u ++ 0 ∷ zeros (size - length u - 1)
padded-suc size u h = rw (zeros-suc (size - length u) (omega arith))

-- An array that was cleared and holds `u` takes `t` behind it, if there is room for both and a 0.
pub strcat-padded :
    (size : ℕ) (u t s : Bytes)
    → IsText u
    → IsText t
    → length u + length t < size
    → strcat (padded size u) (t ++ 0 ∷ s) ≡ done (padded size (u ++ t))
strcat-padded size u t s hu ht h = rw (
  padded-suc size u (omega arith),
  padded-suc size (u ++ t) fits,
  strcat-zeros (size - length u - 1) u t s hu ht (omega arith),
  append_assoc,
  same,
)
  where
    fits : length (u ++ t) < size
    fits = omega (arith, length-append u t)

    same : size - length u - 1 - length t ≡ size - length (u ++ t) - 1
    same = omega (arith, length-append u t)

-- One byte too many, and `strcat` writes past the end of the array.
pub strcat-padded_fault :
    (size : ℕ) (u t s : Bytes)
    → IsText u
    → IsText t
    → length u < size
    → size ≤ length u + length t
    → strcat (padded size u) (t ++ 0 ∷ s) ≡ fault
strcat-padded_fault size u t s hu ht lt h = rw (
  padded-suc size u lt,
  strcat-append u (zeros (size - length u - 1)) (t ++ 0 ∷ s) hu,
  strcpy-fault t s (0 ∷ zeros (size - length u - 1)) ht full,
)
  where
    full : suc (length (zeros (size - length u - 1))) ≤ length t
    full = omega (arith, length-zeros (size - length u - 1))

-- A text and the byte 0 behind it, copied into an array that was cleared.
pub strcpy-zeros :
    (size : ℕ) (t s : Bytes)
    → IsText t
    → length t < size
    → strcpy (zeros size) (t ++ 0 ∷ s) ≡ done (padded size t)
strcpy-zeros size t s h lt =
    let same : size - suc (length t) ≡ size - length t - 1 = omega arith in
    rw (
      strcpy-text t s (zeros size) h (omega (arith, length-zeros size)),
      drop-zeros (suc (length t)) size,
      padded-suc size t lt,
      same,
    )
