-- ===== src/Clib/Decimal.antt =====
-- `atoi` and `strtol` on the digits of a number.
use distributed_storage.Base.{
  ℕ, ◌+◌, ◌-◌, ◌*◌, ◌≤◌, ◌≡◌, refl, true, false, [], ◌∷◌, ◌++◌, All, arith, pos, ltb, le→ltb, ◌==◌,
  leb, length, ◌<◌,
}
use distributed_storage.Clib.Chars.{atoi, digits, isspace, int_max, strtol, long_digits, long_max}
use distributed_storage.Clib.Exec.{done}
use distributed_storage.Clib.Strings.{Bytes}

abbrev pub IsDecimal : Bytes → Type 0
IsDecimal = All (λ c. (b'0' ≤ c) × (c ≤ b'9'))

-- The number that the digits stand for, behind `n`.
abbrev pub number : Bytes → ℕ → ℕ
number [] n = n
number (c ∷ s) n = number s (n * 10 + (c - b'0'))

le-number : (s : Bytes) (n : ℕ) → n ≤ number s n
le-number [] n = omega arith
le-number (c ∷ s) n = omega (arith, le-number s (n * 10 + (c - b'0')))

digits-number :
    (s r : Bytes) (n : ℕ)
    → IsDecimal s
    → number s n ≤ int_max
    → digits (s ++ 0 ∷ r) n ≡ done (number s n)
unfolding digits
digits-number [] r n h le = refl
digits-number (c ∷ s) r n h le =
    let m = n * 10 + (c - b'0') in
    let low : leb b'0' c ≡ true = ground arith in
    let high : leb c b'9' ≡ true = ground arith in
    let fits : ltb int_max m ≡ false = le→ltb int_max m (omega (arith, le-number s m)) in
    rw (low, high, fits) (digits-number s r m h.1 le)

-- A text of digits, of which the number is an `int`.
pub four_digits : (s : Bytes) → IsDecimal s → length s < 5 → number s 0 ≤ 9999
four_digits [] h lt = omega arith
four_digits (a ∷ []) h lt = omega arith
four_digits (a ∷ b ∷ []) h lt = omega arith
four_digits (a ∷ b ∷ c ∷ []) h lt = omega arith
four_digits (a ∷ b ∷ c ∷ d ∷ []) h lt = omega arith
four_digits (a ∷ b ∷ c ∷ d ∷ e ∷ s) h lt = absurd (omega arith)

pub atoi-number :
    (s r : Bytes) → IsDecimal s → number s 0 ≤ int_max → atoi (s ++ 0 ∷ r) ≡ done (pos (number s 0))
unfolding atoi
atoi-number [] r h le = unfold digits in refl
atoi-number (c ∷ s) r h le =
    let run = digits-number (c ∷ s) r 0 h le in
    let blank : isspace c ≡ false = unfold isspace in ground arith in
    let minus : (c == b'-') ≡ false = ground arith in
    let plus : (c == b'+') ≡ false = ground arith in rw (blank, minus, plus, run)

long_digits-number :
    (s r : Bytes) (n : ℕ) → IsDecimal s → long_digits (s ++ 0 ∷ r) n ≡ done (number s n)
unfolding long_digits
long_digits-number [] r n h = refl
long_digits-number (c ∷ s) r n h =
    let low : leb b'0' c ≡ true = ground arith in
    let high : leb c b'9' ≡ true = ground arith in
    rw (low, high) (long_digits-number s r (n * 10 + (c - b'0')) h.1)

pub strtol-number :
    (s r : Bytes)
    → IsDecimal s
    → number s 0 ≤ int_max
    → strtol (s ++ 0 ∷ r) ≡ done (pos (number s 0))
unfolding strtol
strtol-number [] r h le = unfold long_digits in refl
strtol-number (c ∷ s) r h le =
    let run = long_digits-number (c ∷ s) r 0 h in
    let blank : isspace c ≡ false = unfold isspace in ground arith in
    let minus : (c == b'-') ≡ false = ground arith in
    let plus : (c == b'+') ≡ false = ground arith in
    let fits : ltb long_max (number (c ∷ s) 0) ≡ false =
      le→ltb long_max (number (c ∷ s) 0) (omega arith) in
    rw (blank, minus, plus, run, fits)
