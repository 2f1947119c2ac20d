-- ===== src/DataUse/Replace.antt =====
-- `str_replace` of src/data_use.c. `malloc` is given as what it returns: a block of `strlen(src)`
-- bytes that may hold anything, or NULL. The texts `key` and `replace` are given without their 0.
pub mod Faults
pub mod Garbage
pub mod Rounds
pub mod Ending
pub mod Replaces
use distributed_storage.Base.{
  ℕ, zero, suc, ◌+◌, ◌-◌, Option, none, some, ◌==◌, if◌then◌else◌, ℤ, pos, minus_one, length, Bool,
  true, false,
}
use distributed_storage.Clib.Exec.{Exec, done, fault, ◌>>=◌}
use distributed_storage.Clib.Strings.{
  Bytes, cstring, tail_at, strlen, strstr_at, memset, strncpy, strcat, strncat, get_at,
}

-- The first copy is a `strncpy`, the others are `strncat`.
unfoldable pub copy_part : ℕ → Bytes → Bytes → ℕ → Exec Bytes
copy_part count str_buf q len = if count == 1 then strncpy str_buf q len else strncat str_buf q len

-- `while ((p = strstr(q, key)) != NULL)`, with fuel: `none` means that the fuel ran out. The result
-- is `str_buf` and `q`.
unfoldable pub replace_loop : ℕ → Bytes → Bytes → Bytes → ℕ → ℕ → Bytes → Exec (Option (Bytes × ℕ))
unfolding copy_part
replace_loop zero src key replace q count str_buf = done none
replace_loop (suc fuel) src key replace q count str_buf = do
  found ← strstr_at src q key
  elim found [
    | none ↦ done (some (str_buf, q))
    | some p ↦ do
      from ← tail_at src q
      copied ← copy_part (count + 1) str_buf from (p - q)
      written ← strcat copied (cstring replace)
      replace_loop fuel src key replace (p + length key) (count + 1) written
  ]

-- Behind the loop: the rest of `src`, and the copy back.
unfoldable pub copy_back : Bytes → ℕ → Bytes × ℕ → Exec (ℤ × Bytes)
copy_back src src_len r = do
  c ← get_at src r.1
  from ← tail_at src r.1
  str_buf ← if c == 0 then done r.0 else strcat r.0 from
  cleared ← memset src (src_len + 1)
  written ← strncpy cleared str_buf src_len
  done (pos 0, written)

-- The result and the array `src`; `none` inside means that the loop does not end.
unfoldable pub str_replace :
    Option Bytes → Option Bytes → Option Bytes → Option Bytes → Exec (Option (ℤ × Option Bytes))
str_replace none key replace malloc = done (some (minus_one, none))
str_replace (some src) none replace malloc = done (some (minus_one, some src))
str_replace (some src) (some key) none malloc = done (some (minus_one, some src))
str_replace (some src) (some key) (some replace) none =
    strlen src >>= λ src_len. done (some (minus_one, some src))
str_replace (some src) (some key) (some replace) (some block) = do
  src_len ← strlen src
  r ← replace_loop (suc src_len) src key replace 0 0 block
  elim r [
    | none ↦ done none
    | some r ↦ copy_back src src_len r >>= λ o. done (some (o.0, some o.1))
  ]
