-- ===== src/Clib/Lengths.antt =====
-- A write into an array leaves its length as it was.
use distributed_storage.Base.{
  ℕ, zero, suc, ◌≡◌, refl, ap, ◌∙◌, [], ◌∷◌, length, Bool-cases, inl, inr, ◌==◌,
}
use distributed_storage.Clib.Exec.{Exec, done, exits, fault, >>=-eq-done}
use distributed_storage.Clib.Strings.{
  Bytes, cons_done, memset, strncpy, set_at, put_prefix, strcpy, strcat,
}

-- What is left, if anything, has that length.
abbrev Keeps : ℕ → Exec Bytes → Type 0
Keeps n (done b) = length b ≡ n
Keeps n (exits k) = Unit
Keeps n fault = Unit

cons_done-Keeps : (c n : ℕ) (m : Exec Bytes) → Keeps n m → Keeps (suc n) (cons_done c m)
cons_done-Keeps c n (done b) h = ap suc h
cons_done-Keeps c n (exits k) h = tt
cons_done-Keeps c n fault h = tt

Keeps-done : (n : ℕ) (m : Exec Bytes) (b : Bytes) → Keeps n m → m ≡ done b → length b ≡ n
Keeps-done n (done a) b h e = let same : b ≡ a = cc in ap length same ∙ h
Keeps-done n (exits k) b h e = cc
Keeps-done n fault b h e = cc

memset-Keeps : (d : Bytes) (n : ℕ) → Keeps (length d) (memset d n)
unfolding memset
memset-Keeps [] zero = refl
memset-Keeps (x ∷ d) zero = refl
memset-Keeps [] (suc n) = tt
memset-Keeps (x ∷ d) (suc n) = cons_done-Keeps 0 (length d) (memset d n) (memset-Keeps d n)

strncpy-Keeps : (d s : Bytes) (n : ℕ) → Keeps (length d) (strncpy d s n)
unfolding strncpy
strncpy-Keeps [] s zero = refl
strncpy-Keeps (x ∷ d) s zero = refl
strncpy-Keeps [] s (suc n) = tt
strncpy-Keeps (x ∷ d) [] (suc n) = tt
strncpy-Keeps (x ∷ d) (c ∷ s) (suc n) = elim (Bool-cases (c == 0)) [
  | inl end ↦ rw end (memset-Keeps (x ∷ d) (suc n))
  | inr more ↦ rw more (cons_done-Keeps c (length d) (strncpy d s n) (strncpy-Keeps d s n))
]

set_at-Keeps : (b : Bytes) (i c : ℕ) → Keeps (length b) (set_at b i c)
unfolding set_at
set_at-Keeps [] i c = tt
set_at-Keeps (d ∷ b) zero c = refl
set_at-Keeps (d ∷ b) (suc i) c = cons_done-Keeps d (length b) (set_at b i c) (set_at-Keeps b i c)

pub length-memset : (d b : Bytes) (n : ℕ) → memset d n ≡ done b → length b ≡ length d
length-memset d b n e = Keeps-done (length d) (memset d n) b (memset-Keeps d n) e

pub length-strncpy : (d s b : Bytes) (n : ℕ) → strncpy d s n ≡ done b → length b ≡ length d
length-strncpy d s b n e = Keeps-done (length d) (strncpy d s n) b (strncpy-Keeps d s n) e

length-set_at : (d b : Bytes) (i c : ℕ) → set_at d i c ≡ done b → length b ≡ length d
length-set_at d b i c e = Keeps-done (length d) (set_at d i c) b (set_at-Keeps d i c) e

pub length-put_prefix : (d s b : Bytes) (n : ℕ) → put_prefix d s n ≡ done b → length b ≡ length d
unfolding put_prefix
length-put_prefix d s b n e =
    let (copied, e₁, e₂) = >>=-eq-done (strncpy d s n) (λ copied. set_at copied n 0) e in
    length-set_at copied b n 0 e₂ ∙ length-strncpy d s copied n e₁

strcpy-Keeps : (d s : Bytes) → Keeps (length d) (strcpy d s)
unfolding strcpy
strcpy-Keeps [] s = tt
strcpy-Keeps (x ∷ d) [] = tt
strcpy-Keeps (x ∷ d) (c ∷ s) = elim (Bool-cases (c == 0)) [
  | inl end ↦ rw end refl
  | inr more ↦ rw more (cons_done-Keeps c (length d) (strcpy d s) (strcpy-Keeps d s))
]

strcat-Keeps : (d s : Bytes) → Keeps (length d) (strcat d s)
unfolding strcat
strcat-Keeps [] s = tt
strcat-Keeps (x ∷ d) s = elim (Bool-cases (x == 0)) [
  | inl end ↦ rw end (strcpy-Keeps (x ∷ d) s)
  | inr more ↦ rw more (cons_done-Keeps x (length d) (strcat d s) (strcat-Keeps d s))
]

pub length-strcpy : (d s b : Bytes) → strcpy d s ≡ done b → length b ≡ length d
length-strcpy d s b e = Keeps-done (length d) (strcpy d s) b (strcpy-Keeps d s) e

pub length-strcat : (d s b : Bytes) → strcat d s ≡ done b → length b ≡ length d
length-strcat d s b e = Keeps-done (length d) (strcat d s) b (strcat-Keeps d s) e
