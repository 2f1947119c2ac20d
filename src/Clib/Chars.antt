-- ===== src/Clib/Chars.antt =====
-- `isspace` in the C locale, `atoi` and `strtol`.
use distributed_storage.Base.{
  ℕ, suc, ◌+◌, ◌-◌, ◌*◌, ◌%◌, Bool, ◌&&◌, ◌||◌, [], ◌∷◌, ◌==◌, leb, ltb, if◌then◌else◌, ℤ, pos,
  negsuc, sub_ℕ, ◌≤◌, ◌≡◌, refl, le→leb,
}
use distributed_storage.Clib.Exec.{Exec, done, fault, ◌>>=◌}
use distributed_storage.Clib.Strings.{Bytes}

unfoldable pub isspace : ℕ → Bool
isspace c = c == 32 || (leb 9 c && leb c 13)

unfoldable pub isdigit : ℕ → Bool
isdigit c = leb b'0' c && leb c b'9'

-- The largest `int`.
abbrev pub int_max : ℕ
int_max = 2147483647

-- The result of an operation on `int`: one outside the range is not defined.
unfoldable pub int_of : ℤ → Exec ℤ
int_of (pos n) = if leb n int_max then done (pos n) else fault
int_of (negsuc n) = if leb n int_max then done (negsuc n) else fault

pub int_of-pos : (n : ℕ) → n ≤ int_max → int_of (pos n) ≡ done (pos n)
unfolding int_of
int_of-pos n h = rw (le→leb n int_max h) refl

-- The digits at the head, read behind `n`; a value above `int_max` is not defined.
unfoldable pub digits : Bytes → ℕ → Exec ℕ
unfolding isdigit
digits [] n = fault
digits (c ∷ s) n =
    if isdigit c
    then (if ltb int_max (n * 10 + (c - b'0')) then fault else digits s (n * 10 + (c - b'0')))
    else done n

negate : ℕ → ℤ
negate n = sub_ℕ 0 n

unfoldable pub signed : Bytes → Exec ℤ
unfolding digits negate
signed [] = fault
signed (c ∷ s) =
    if c == b'-'
    then (digits s 0 >>= λ n. done (negate n))
    else if c == b'+'
    then (digits s 0 >>= λ n. done (pos n))
    else digits (c ∷ s) 0 >>= λ n. done (pos n)

unfoldable pub atoi : Bytes → Exec ℤ
unfolding isspace signed
atoi [] = fault
atoi (c ∷ s) = if isspace c then atoi s else signed (c ∷ s)

-- LONG_MAX, for a `long` of 64 bits.
abbrev pub long_max : ℕ
long_max = 9223372036854775807

unfoldable pub long_digits : Bytes → ℕ → Exec ℕ
unfolding isdigit
long_digits [] n = fault
long_digits (c ∷ s) n = if isdigit c then long_digits s (n * 10 + (c - b'0')) else done n

-- A value out of range becomes LONG_MAX or LONG_MIN.
unfoldable pub long_signed : Bytes → Exec ℤ
unfolding long_digits negate
long_signed [] = fault
long_signed (c ∷ s) =
    if c == b'-'
    then (long_digits s 0 >>= λ n. done (if ltb long_max n then negsuc long_max else negate n))
    else if c == b'+'
    then (long_digits s 0 >>= λ n. done (if ltb long_max n then pos long_max else pos n))
    else long_digits (c ∷ s) 0 >>= λ n. done (if ltb long_max n then pos long_max else pos n)

-- `strtol(s, NULL, 10)`.
unfoldable pub strtol : Bytes → Exec ℤ
unfolding isspace long_signed
strtol [] = fault
strtol (c ∷ s) = if isspace c then strtol s else long_signed (c ∷ s)

-- The conversion to `uint16_t`.
unfoldable pub uint16 : ℤ → ℕ
uint16 (pos n) = n % 65536
uint16 (negsuc n) = (65536 - suc n % 65536) % 65536
