-- ===== src/Usefull/TrimSpace.antt =====
-- `trim_space` of src/usefull.c. Its `strncpy` copies inside one array. The guard `if ((str = NULL))` assigns, and never holds.
pub mod Trims
pub mod Spaced
use distributed_storage.Base.{
  ℕ, zero, suc, ◌+◌, ◌-◌, ◌&&◌, not, Bool, true, leb, List, [], ◌∷◌, ◌==◌, ltb, if◌then◌else◌, ℤ,
  pos,
}
use distributed_storage.Clib.Exec.{Exec, done, fault, ◌>>=◌}
use distributed_storage.Clib.Strings.{Bytes, suc_done, strlen, tail_at, put_prefix, get_at}
use distributed_storage.Clib.Chars.{isspace}

-- `while (isspace(*begin) && *begin != '\0') begin++`, as the number of steps.
unfoldable pub skip_space : Bytes → Exec ℕ
skip_space [] = fault
skip_space (c ∷ s) = if isspace c && not (c == 0) then suc_done (skip_space s) else done 0

-- `while (isspace(*end) && (end - begin) > 0) end--`
unfoldable pub retreat : Bytes → ℕ → ℕ → Exec ℕ
retreat src begin zero = get_at src 0 >>= λ c. done zero
retreat src begin (suc end) = do
  c ← get_at src (suc end)
  let rest = retreat src begin end
  if isspace c && ltb begin (suc end) then rest else done (suc end)

-- May `strncpy` copy so many bytes from the place `begin` to the front of the same array? Where both parts
-- share bytes C leaves it undefined. A text that begins the array stays where it is.
unfoldable pub may_copy : ℕ → ℕ → Bool
may_copy begin len = if begin == 0 then true else leb len begin

-- The result and the array. In an empty text `end` begins in front of the array.
unfoldable pub trim_space : Bytes → Exec (ℤ × Bytes)
trim_space src = do
  n ← strlen src
  begin ← skip_space src
  end ← if n == 0 then fault else retreat src begin (n - 1)
  let len = end + 1 - begin
  from ← tail_at src begin
  str ← if may_copy begin len then put_prefix src from len else fault
  done (pos 0, str)
