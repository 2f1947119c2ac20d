-- ===== src/Clib/Within.antt =====
-- Where a search ends: no text is found behind the byte 0.
use distributed_storage.Base.{
  ℕ, zero, suc, ◌+◌, ◌≤◌, ◌≡◌, refl, ap, sym, ◌∙◌, Option, true, false, some, none, [], ◌∷◌, ◌++◌,
  length, arith, drop, Bool-cases, inl, inr, ne→==, ◌==◌,
}
use distributed_storage.Clib.Exec.{Exec, done, exits, fault, >>=-eq-done}
use distributed_storage.Clib.Strings.{Bytes, IsText, tail_at, strlen, starts_with, strstr, shift}

-- An array whose length is known is a text, a byte 0, and what is behind it.
pub strlen-split :
    (b : Bytes) (n : ℕ)
    → strlen b ≡ done n
    → (t : Bytes) × (r : Bytes) × (b ≡ t ++ 0 ∷ r) × IsText t × (length t ≡ n)
unfolding strlen
strlen-split [] n e = cc
strlen-split (c ∷ b) n e = elim (Bool-cases (c == 0)) [
  | inl ends ↦
      let zero_c : c ≡ 0 = ground (arith, ends) in
      let len : 0 ≡ n = cc (rw ends at e) in ([], b, ap (λ d. d ∷ b) zero_c, tt, len)
  | inr goes ↦
      let (m, counted, more) = >>=-eq-done (strlen b) (λ m. done (suc m)) (rw goes at e) in
      let len : suc m ≡ n = cc in
      let (t, r, is, text, size) = strlen-split b m counted in
      (c ∷ t, r, ap (◌∷◌ c) is, (ground (arith, goes), text), ap suc size ∙ len)
]

pub shift-eq-some :
    (n i : ℕ) (m : Exec (Option ℕ))
    → shift n m ≡ done (some i)
    → (j : ℕ) × (m ≡ done (some j)) × (n + j ≡ i)
shift-eq-some n i (done none) e = cc
shift-eq-some n i (done (some j)) e = (j, refl, cc)
shift-eq-some n i (exits k) e = cc
shift-eq-some n i fault e = cc

starts_with-within :
    (key t r : Bytes) → IsText key → starts_with key (t ++ 0 ∷ r) ≡ true → length key ≤ length t
unfolding starts_with
starts_with-within [] t r h e = omega arith
starts_with-within (k ∷ key) [] r h e = absurd (ground (arith, h.0, e))
starts_with-within (k ∷ key) (c ∷ t) r h e =
    let rest : starts_with key (t ++ 0 ∷ r) ≡ true = ground (arith, e) in
    omega (arith, starts_with-within key t r h.1 rest)

pub strstr-within :
    (key t r : Bytes) (k i : ℕ)
    → IsText (k ∷ key)
    → IsText t
    → strstr (t ++ 0 ∷ r) (k ∷ key) ≡ done (some i)
    → i + length (k ∷ key) ≤ length t
unfolding strstr
strstr-within key [] r k i h ht e =
    let miss : starts_with (k ∷ key) (0 ∷ r) ≡ false =
      unfold starts_with in rw (ne→== 0 k (λ z. h.0 (sym z))) in
    cc (rw miss at e)
strstr-within key (c ∷ t) r k i h ht e =
    elim (Bool-cases (starts_with (k ∷ key) ((c ∷ t) ++ 0 ∷ r))) [
      | inl here ↦
          let start : 0 ≡ i = cc (rw here at e) in
          omega (arith, start, starts_with-within (k ∷ key) (c ∷ t) r h here)
      | inr later ↦
          let (j, found, next) =
            shift-eq-some 1 i (strstr (t ++ 0 ∷ r) (k ∷ key)) (rw (later, ne→== c 0 ht.0) at e) in
          omega (arith, next, strstr-within key t r k j h ht.1 found)
    ]

pub tail_at-text :
    (t r : Bytes) (n : ℕ) → n ≤ length t → tail_at (t ++ 0 ∷ r) n ≡ done (drop n t ++ 0 ∷ r)
unfolding tail_at
tail_at-text t r zero le = refl
tail_at-text [] r (suc n) le = absurd (omega arith)
tail_at-text (c ∷ t) r (suc n) le = tail_at-text t r n (omega arith)
