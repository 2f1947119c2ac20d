-- ===== src/Clib/First.antt =====
-- `strstr` returns the first occurrence: the description that the callers' theorems use.
use distributed_storage.Base.{
  All, ◌≢◌, ◌+◌, Bool, if◌then◌else◌, Bool-cases, inl, inr, zero, suc, ◌≤◌, sym, ◌∙◌, append_assoc,
  length-append, length-drop, ℕ, suc, ◌<◌, ◌≡◌, refl, ap, true, false, some, none, [], ◌∷◌, ◌++◌,
  arith, length, drop, ne→==,
}
use distributed_storage.Clib.Exec.{done}
use distributed_storage.Clib.Strings.{Bytes, IsText, starts_with, strstr}

-- None of the first `n` places begins with the needle.
abbrev pub Absent : Bytes → Bytes → ℕ → Type 0
Absent needle s n = (j : ℕ) → j < n → starts_with needle (drop j s) ≡ false

pub starts_with-append : (k s : Bytes) → starts_with k (k ++ s) ≡ true
unfolding starts_with
starts_with-append [] s = refl
starts_with-append (c ∷ k) s = ground (arith, starts_with-append k s)

pub strstr-first :
    (a : Bytes) (c : ℕ) (s needle : Bytes)
    → IsText a
    → Absent needle (a ++ c ∷ s) (length a)
    → starts_with needle (c ∷ s) ≡ true
    → strstr (a ++ c ∷ s) needle ≡ done (some (length a))
unfolding strstr
strstr-first [] c s needle h absent here = rw here
strstr-first (d ∷ a) c s needle h absent here =
    let later = strstr-first a c s needle h.1 (λ j lt. absent (suc j) (omega arith)) here in
    let now : starts_with needle (d ∷ (a ++ c ∷ s)) ≡ false = absent 0 (omega arith) in
    rw (now, ne→== d 0 h.0, later) (ap (λ n. done (some n)) (omega arith))

-- A needle that begins nowhere in the text, its end included, is not found.
pub strstr-Absent :
    (t r needle : Bytes)
    → IsText t
    → Absent needle (t ++ 0 ∷ r) (suc (length t))
    → strstr (t ++ 0 ∷ r) needle ≡ done none
unfolding strstr
strstr-Absent [] r needle h absent =
    let now : starts_with needle (0 ∷ r) ≡ false = absent 0 (omega arith) in rw now
strstr-Absent (d ∷ t) r needle h absent =
    let later = strstr-Absent t r needle h.1 (λ j lt. absent (suc j) (omega arith)) in
    let now : starts_with needle (d ∷ (t ++ 0 ∷ r)) ≡ false = absent 0 (omega arith) in
    rw (now, ne→== d 0 h.0, later)

-- Behind enough bytes nothing changes the test.
starts_with-append_long :
    (k x s : Bytes) → length k ≤ length x → starts_with k (x ++ s) ≡ starts_with k x
unfolding starts_with
starts_with-append_long [] x s h = refl
starts_with-append_long (c ∷ k) [] s h = absurd (omega arith)
starts_with-append_long (c ∷ k) (d ∷ x) s h = rw (starts_with-append_long k x s (omega arith))

drop-append_le : (j : ℕ) (x s : Bytes) → j ≤ length x → drop j (x ++ s) ≡ drop j x ++ s
drop-append_le zero x s h = refl
drop-append_le (suc j) [] s h = absurd (omega arith)
drop-append_le (suc j) (c ∷ x) s h = drop-append_le j x s (omega arith)

-- Whether a needle begins in front of its place does not depend on what follows it there.
pub Absent-append :
    (needle a s : Bytes)
    → Absent needle (a ++ needle) (length a)
    → Absent needle (a ++ (needle ++ s)) (length a)
Absent-append needle a s h j lt =
    let size = length-append a needle in
    let here : drop j (a ++ (needle ++ s)) ≡ drop j (a ++ needle) ++ s =
      ap (drop j) (sym (append_assoc a needle s))
      ∙ drop-append_le j (a ++ needle) s (omega (arith, size)) in
    rw here (
      starts_with-append_long needle (drop j (a ++ needle)) s
        (omega (arith, size, length-drop j (a ++ needle)))
      ∙ h j lt)

-- Does the needle begin at none of the first `n` places?
unfoldable pub is_absent : Bytes → Bytes → ℕ → Bool
is_absent needle s zero = true
is_absent needle s (suc n) =
    let later = is_absent needle (drop 1 s) n in if starts_with needle s then false else later

pub is_absent-Absent : (needle s : Bytes) (n : ℕ) → is_absent needle s n ≡ true → Absent needle s n
unfolding is_absent
is_absent-Absent needle s zero h j lt = absurd (omega arith)
is_absent-Absent needle s (suc n) h j lt = elim (Bool-cases (starts_with needle s)) [
  | inl here ↦ cc (rw here at h)
  | inr other ↦ behind s j lt other (is_absent-Absent needle (drop 1 s) n (rw other at h))
]
  where
    behind :
        (s : Bytes) (j : ℕ)
        → j < suc n
        → starts_with needle s ≡ false
        → Absent needle (drop 1 s) n
        → starts_with needle (drop j s) ≡ false
    behind s zero lt other rest = other
    behind [] (suc j) lt other rest = other
    behind (c ∷ s) (suc j) lt other rest = rest j (omega arith)

-- Bytes that are not the needle's first.
pub Absent-lacks :
    (k : ℕ) (ks p s : Bytes) → All (λ c. c ≢ k) p → Absent (k ∷ ks) (p ++ s) (length p)
unfolding starts_with
Absent-lacks k ks [] s h j lt = absurd (omega arith)
Absent-lacks k ks (c ∷ p) s h zero lt = rw (ne→== c k h.0)
Absent-lacks k ks (c ∷ p) s h (suc j) lt = Absent-lacks k ks p s h.1 j (omega arith)

pub Absent-join :
    (needle a s : Bytes) (n : ℕ)
    → Absent needle (a ++ s) (length a)
    → Absent needle s n
    → Absent needle (a ++ s) (length a + n)
Absent-join needle [] s n front h j lt = h j (omega arith)
Absent-join needle (c ∷ a) s n front h zero lt = front 0 (omega arith)
Absent-join needle (c ∷ a) s n front h (suc j) lt =
    Absent-join needle a s n (λ i l. front (suc i) (omega arith)) h j (omega arith)
