-- ===== src/Usefull/Memstr.antt =====
-- `memstr` of src/usefull.c: a text inside bytes that may hold the byte 0.
pub mod First
pub mod Find
use distributed_storage.Base.{
  ℕ, zero, suc, ◌+◌, ◌-◌, Option, none, some, [], ◌∷◌, ◌&&◌, ◌==◌, if◌then◌else◌, ℤ, pos, negsuc,
  length, Bool, leb,
}
use distributed_storage.Clib.Exec.{Exec, done, fault, ◌>>=◌}
use distributed_storage.Clib.Strings.{Bytes, starts_with, get_at, shift}

-- `memcmp(cur, substr, sublen) == 0`; the bytes compared must lie in the array.
unfoldable pub memcmp_eq : Bytes → Bytes → Exec Bool
memcmp_eq cur substr =
    if leb (length substr) (length cur) then done (starts_with substr cur) else fault

-- `for (i = 0; i < last_possible; i++)`, on the rounds left and the bytes from `cur` on. `*substr`
-- is the first byte of the text.
unfoldable pub memstr_loop : ℕ → Bytes → ℕ → Bytes → Exec (Option ℕ)
memstr_loop zero cur first substr = done none
memstr_loop (suc rounds) [] first substr = fault
memstr_loop (suc rounds) (c ∷ cur) first substr =
    let next = shift 1 (memstr_loop rounds cur first substr) in
    if c == first
    then (memcmp_eq (c ∷ cur) substr >>= λ same. if same then done (some 0) else next)
    else next

-- The offset that is returned, `none` for NULL. `substr` is given as its text, and
-- `last_possible = full_data_len - sublen + 1` allows no round where it is not positive.
unfoldable pub memstr : Option Bytes → ℤ → Option Bytes → Exec (Option ℕ)
memstr none len substr = done none
memstr (some data') (negsuc n) substr = done none
memstr (some data') (pos zero) substr = done none
memstr (some data') (pos (suc n)) none = done none
memstr (some data') (pos (suc n)) (some []) = done none
memstr (some data') (pos (suc n)) (some (k ∷ ks)) =
    memstr_loop (suc n + 1 - length (k ∷ ks)) data' k (k ∷ ks)
