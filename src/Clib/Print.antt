-- ===== src/Clib/Print.antt =====
-- What `printf` makes of its arguments: numbers in decimal digits, and texts in arrays.
use distributed_storage.Base.{
  ℕ, zero, suc, ◌+◌, ◌-◌, ◌*◌, ◌/◌, ◌%◌, ◌≤◌, ◌≡◌, refl, ltb, if◌then◌else◌, Bool-cases, inl, inr,
  ltb→lt, ltb→le, [], ◌∷◌, ◌++◌, All-append, arith, length, take,
}
use distributed_storage.Clib.Decimal.{IsDecimal, number}
use distributed_storage.Clib.Exec.{Exec, done, fault}
use distributed_storage.Clib.Strings.{Bytes}

-- The digits of a number, with fuel.
unfoldable pub decimal : ℕ → ℕ → Bytes
decimal zero n = (b'0' + n) ∷ []
decimal (suc fuel) n =
    let front = decimal fuel (n / 10) in
    if ltb n 10 then (b'0' + n) ∷ [] else front ++ (b'0' + n % 10) ∷ []

number-append : (s : Bytes) (c n : ℕ) → number (s ++ c ∷ []) n ≡ number s n * 10 + (c - b'0')
number-append [] c n = refl
number-append (d ∷ s) c n = number-append s c (n * 10 + (d - b'0'))

pub decimal-IsDecimal : (fuel n : ℕ) → n ≤ fuel → IsDecimal (decimal fuel n)
unfolding decimal
decimal-IsDecimal zero n le = omega arith
decimal-IsDecimal (suc fuel) n le = elim (Bool-cases (ltb n 10)) [
  | inl small ↦ rw small (omega (arith, ltb→lt n 10 small))
  | inr large ↦ rw large (
      All-append (λ c. (b'0' ≤ c) × (c ≤ b'9')) (decimal fuel (n / 10)) ((b'0' + n % 10) ∷ [])
        (decimal-IsDecimal fuel (n / 10) (omega (arith, ltb→le n 10 large))) (omega arith))
]

pub number-decimal : (fuel n : ℕ) → n ≤ fuel → number (decimal fuel n) 0 ≡ n
unfolding decimal
number-decimal zero n le = omega arith
number-decimal (suc fuel) n le = elim (Bool-cases (ltb n 10)) [
  | inl small ↦ rw small (omega arith)
  | inr large ↦
      rw
        (
          large,
          number-append (decimal fuel (n / 10)) (b'0' + n % 10) 0,
          number-decimal fuel (n / 10) (omega (arith, ltb→le n 10 large)),
        )
        (omega arith)
]

-- "%d", of a number that is not negative.
abbrev pub digits_of : ℕ → Bytes
digits_of n = decimal n n

unfoldable pub repeat : ℕ → ℕ → Bytes
repeat zero c = []
repeat (suc n) c = c ∷ repeat n c

-- "%02d" and "%04d": with zeros in front up to the width.
abbrev pub zero_padded : ℕ → ℕ → Bytes
zero_padded width n = repeat (width - length (digits_of n)) b'0' ++ digits_of n

-- `sprintf` and `vsprintf` into an array of that size: the text and a byte 0, however long it is.
unfoldable pub sprintf : ℕ → Bytes → Exec Bytes
sprintf size text = if ltb (length text) size then done text else fault

-- `snprintf`, which cuts the text.
abbrev pub snprintf : ℕ → Bytes → Bytes
snprintf size text = take (size - 1) text
