-- ===== src/Clib/Strings.antt =====
-- The functions of <string.h> that the program calls, over arrays of bytes. A string is a pointer
-- into an array, given by the bytes from there to the end of the array; the text ends at byte 0.
-- A read past the end of the array, or a write past it, is a fault.
use Prim.Native.Char.{code}
use Prim.Native.String.{String}
use distributed_storage.Base.{
  ℕ, zero, suc, ◌+◌, ◌-◌, ◌≢◌, Bool, true, false, ◌&&◌, Option, none, some, List, [], ◌∷◌, ◌++◌,
  ◌==◌, if◌then◌else◌, All, length, replicate,
}
use distributed_storage.Clib.Exec.{Exec, done, fault, ◌>>=◌}

abbrev pub Bytes : Type 0
Bytes = List ℕ

-- The bytes of a literal, without the byte 0 that ends it.
abbrev pub codes : String → Bytes
codes String.[] = []
codes (String.◌∷◌ c s) = code c ∷ codes s

-- A text holds no byte 0.
abbrev pub IsText : Bytes → Type 0
IsText = All (λ c. c ≢ 0)

-- A text as the array that holds it and nothing else.
abbrev pub cstring : Bytes → Bytes
cstring t = t ++ 0 ∷ []

abbrev pub zeros : ℕ → Bytes
zeros n = replicate n 0

-- An array of `size` bytes that was cleared, and then holds the text `t`.
abbrev pub padded : ℕ → Bytes → Bytes
padded size t = t ++ zeros (size - length t)

abbrev pub cons_done : ℕ → Exec Bytes → Exec Bytes
cons_done c m = m >>= λ r. done (c ∷ r)

abbrev pub suc_done : Exec ℕ → Exec ℕ
suc_done m = m >>= λ n. done (suc n)

abbrev pub shift : ℕ → Exec (Option ℕ) → Exec (Option ℕ)
shift n m = m >>= λ o. done (elim o [ none ↦ none | some i ↦ some (n + i) ])

-- buf + p
unfoldable pub tail_at : Bytes → ℕ → Exec Bytes
tail_at b zero = done b
tail_at [] (suc p) = fault
tail_at (x ∷ b) (suc p) = tail_at b p

unfoldable pub strlen : Bytes → Exec ℕ
strlen [] = fault
strlen (c ∷ s) = if c == 0 then done 0 else suc_done (strlen s)

-- Does the array begin with these bytes?
unfoldable pub starts_with : Bytes → Bytes → Bool
starts_with [] s = true
starts_with (k ∷ ks) [] = false
starts_with (k ∷ ks) (c ∷ s) = c == k && starts_with ks s

-- The offset of the first occurrence of the needle, `none` for NULL.
unfoldable pub strstr : Bytes → Bytes → Exec (Option ℕ)
strstr [] key = fault
strstr (c ∷ s) key =
    if starts_with key (c ∷ s)
    then done (some 0)
    else if c == 0
    then done none
    else shift 1 (strstr s key)

-- strstr(buf + p, key), as an offset from `buf`
unfoldable pub strstr_at : Bytes → ℕ → Bytes → Exec (Option ℕ)
strstr_at b p key = do s ← tail_at b p; shift p (strstr s key)

-- memset(dst, 0, n)
unfoldable pub memset : Bytes → ℕ → Exec Bytes
memset dst zero = done dst
memset [] (suc n) = fault
memset (d ∷ dst) (suc n) = cons_done 0 (memset dst n)

-- All `n` bytes are written: those behind the end of the source are 0.
unfoldable pub strncpy : Bytes → Bytes → ℕ → Exec Bytes
strncpy dst src zero = done dst
strncpy [] src (suc n) = fault
strncpy (d ∷ dst) [] (suc n) = fault
strncpy (d ∷ dst) (c ∷ src) (suc n) =
    if c == 0 then memset (d ∷ dst) (suc n) else cons_done c (strncpy dst src n)

unfoldable pub strcpy : Bytes → Bytes → Exec Bytes
strcpy [] src = fault
strcpy (d ∷ dst) [] = fault
strcpy (d ∷ dst) (c ∷ src) = if c == 0 then done (0 ∷ dst) else cons_done c (strcpy dst src)

unfoldable pub strcat : Bytes → Bytes → Exec Bytes
strcat [] src = fault
strcat (d ∷ dst) src = if d == 0 then strcpy (d ∷ dst) src else cons_done d (strcat dst src)

-- At most `n` bytes, and then a byte 0.
unfoldable pub strncpy0 : Bytes → Bytes → ℕ → Exec Bytes
strncpy0 [] src n = fault
strncpy0 (d ∷ dst) src zero = done (0 ∷ dst)
strncpy0 (d ∷ dst) [] (suc n) = fault
strncpy0 (d ∷ dst) (c ∷ src) (suc n) =
    if c == 0 then done (0 ∷ dst) else cons_done c (strncpy0 dst src n)

unfoldable pub strncat : Bytes → Bytes → ℕ → Exec Bytes
strncat [] src n = fault
strncat (d ∷ dst) src n =
    if d == 0 then strncpy0 (d ∷ dst) src n else cons_done d (strncat dst src n)

-- buf[i] = c
unfoldable pub set_at : Bytes → ℕ → ℕ → Exec Bytes
set_at [] i c = fault
set_at (d ∷ b) zero c = done (c ∷ b)
set_at (d ∷ b) (suc i) c = cons_done d (set_at b i c)

-- strncpy(dst, src, n); dst[n] = '\0'
unfoldable pub put_prefix : Bytes → Bytes → ℕ → Exec Bytes
put_prefix dst src n = strncpy dst src n >>= λ copied. set_at copied n 0

-- buf[i]
unfoldable pub get_at : Bytes → ℕ → Exec ℕ
get_at [] i = fault
get_at (d ∷ b) zero = done d
get_at (d ∷ b) (suc i) = get_at b i

-- The text that the array holds, with no byte 0.
unfoldable pub text_of : Bytes → Exec Bytes
text_of [] = fault
text_of (c ∷ s) = if c == 0 then done [] else cons_done c (text_of s)

-- strcmp(s, t) == 0, on texts.
unfoldable pub equal : Bytes → Bytes → Bool
equal [] [] = true
equal (x ∷ xs) (y ∷ ys) = x == y && equal xs ys
equal _ _ = false
