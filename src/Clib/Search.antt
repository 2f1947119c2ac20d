-- ===== src/Clib/Search.antt =====
-- Lemmas on `tail_at`, `strlen` and `strstr`.
use distributed_storage.Base.{
  eq→==, true, ℕ, zero, suc, ◌+◌, ◌≡◌, ◌≢◌, refl, ap, sym, ◌∙◌, Option, none, some, [], ◌∷◌, ◌++◌,
  arith, All, length, zero-add, suc-add, one-add, add_assoc, ne→==, ◌==◌, Bool-cases, inl, inr,
}
use distributed_storage.Clib.Exec.{Exec, done, exits, fault}
use distributed_storage.Clib.Strings.{
  Bytes, IsText, shift, tail_at, strlen, starts_with, strstr, strstr_at, text_of, equal,
}

pub tail_at-append : (xs s : Bytes) (n : ℕ) → tail_at (xs ++ s) (length xs + n) ≡ tail_at s n
unfolding tail_at
tail_at-append [] s n = rw zero-add
tail_at-append (x ∷ xs) s n = rw suc-add (tail_at-append xs s n)

pub tail_at-append_self : (xs s : Bytes) → tail_at (xs ++ s) (length xs) ≡ done s
unfolding tail_at
tail_at-append_self [] s = refl
tail_at-append_self (x ∷ xs) s = tail_at-append_self xs s

pub strlen-text : (t r : Bytes) → IsText t → strlen (t ++ 0 ∷ r) ≡ done (length t)
unfolding strlen
strlen-text [] r h = refl
strlen-text (c ∷ t) r h = ground (arith, strlen-text t r h.1)

pub text_of-text : (t r : Bytes) → IsText t → text_of (t ++ 0 ∷ r) ≡ done t
unfolding text_of
text_of-text [] r h = refl
text_of-text (c ∷ t) r h = ground (arith, text_of-text t r h.1)

-- An array with a byte 0 somewhere holds a text.
pub text_of-ends : (s r : Bytes) → (t : Bytes) × (text_of (s ++ 0 ∷ r) ≡ done t)
unfolding text_of
text_of-ends [] r = ([], refl)
text_of-ends (c ∷ s) r =
    let (t, same) = text_of-ends s r in
    elim (Bool-cases (c == 0)) [
      | inl stop ↦ ([], rw stop refl)
      | inr more ↦ (c ∷ t, rw (more, same) refl)
    ]

pub shift-shift : (m n : ℕ) (e : Exec (Option ℕ)) → shift m (shift n e) ≡ shift (m + n) e
shift-shift m n (done none) = refl
shift-shift m n (done (some i)) = ap (λ k. done (some k)) (sym (add_assoc m n i))
shift-shift m n (exits k) = refl
shift-shift m n fault = refl

pub shift-zero : (e : Exec (Option ℕ)) → shift 0 e ≡ e
shift-zero (done none) = refl
shift-zero (done (some i)) = ap (λ k. done (some k)) (zero-add i)
shift-zero (exits k) = refl
shift-zero fault = refl

-- A text that lacks the first byte of the needle is passed over.
pub strstr-append :
    (t s : Bytes) (k : ℕ) (ks : Bytes)
    → All (λ c. (c ≢ 0) × (c ≢ k)) t
    → strstr (t ++ s) (k ∷ ks) ≡ shift (length t) (strstr s (k ∷ ks))
unfolding strstr starts_with
strstr-append [] s k ks h = sym (shift-zero _)
strstr-append (c ∷ t) s k ks h =
    rw (ne→== c k h.0.1, ne→== c 0 h.0.0, strstr-append t s k ks h.1)
      (shift-shift 1 (length t) _ ∙ ap (λ n. shift n (strstr s (k ∷ ks))) (one-add (length t)))

pub tail_at-add :
    (b : Bytes) (p n : ℕ) (s : Bytes) → tail_at b p ≡ done s → tail_at b (p + n) ≡ tail_at s n
unfolding tail_at
tail_at-add b zero n s h = rw zero-add (cc)
tail_at-add [] (suc p) n s h = cc
tail_at-add (x ∷ b) (suc p) n s h = rw suc-add (tail_at-add b p n s h)

-- Where the bytes from `p` on are known, the search is one in those.
pub strstr_at-tail :
    (b : Bytes) (p : ℕ) (s key : Bytes)
    → tail_at b p ≡ done s
    → strstr_at b p key ≡ shift p (strstr s key)
unfolding strstr_at
strstr_at-tail b p s key h = rw h

-- What stands from an offset on is as long as the array behind the offset.
pub length-tail_at : (b s : Bytes) (p : ℕ) → tail_at b p ≡ done s → length b ≡ p + length s
unfolding tail_at
length-tail_at [] s zero h = cc
length-tail_at [] s (suc p) h = cc
length-tail_at (x ∷ b) s zero h = rw zero-add (cc)
length-tail_at (x ∷ b) s (suc p) h = rw suc-add (ap suc (length-tail_at b s p h))

pub equal_self : (s : Bytes) → equal s s ≡ true
unfolding equal
equal_self [] = refl
equal_self (c ∷ s) = rw (eq→== c c refl, equal_self s)
