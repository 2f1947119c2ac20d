-- ===== src/Programs/Upload/Clean.antt =====
-- The arrays of `main` between two requests, and the input.
use distributed_storage.Base.{
  ℕ, ◌+◌, ◌≡◌, refl, [], ◌∷◌, ◌++◌, arith, length, pos, some, ◌%◌, ltb, lt→ltb, ◌≤◌, to_int, true,
}
use distributed_storage.Clib.Append.{memset-whole}
use distributed_storage.Clib.Chars.{int_max}
use distributed_storage.Clib.Decimal.{IsDecimal, number, strtol-number}
use distributed_storage.Clib.Exec.{done}
use distributed_storage.Clib.Strings.{Bytes, zeros}
use distributed_storage.Programs.Upload.{Arrays, clear, read_form, content_len}

-- The sizes with which the arrays are declared.
pub record IsSized (s : Arrays) : Type 0 where
  pub filename_size : length s.filename ≡ 256
  pub file_id_size : length s.file_id ≡ 256
  pub url_size : length s.fdfs_file_url ≡ 256
  pub usr_size : length s.usr ≡ 64

abbrev pub clean : Arrays
clean = record {
  filename = zeros 256;
  file_id = zeros 256;
  fdfs_file_url = zeros 256;
  usr = zeros 64;
}

pub clear-clean : (s : Arrays) → IsSized s → clear s ≡ done clean
unfolding clear
clear-clean s h = rw (
  memset-whole s.filename 256 h.filename_size,
  memset-whole s.file_id 256 h.file_id_size,
  memset-whole s.fdfs_file_url 256 h.url_size,
  memset-whole s.usr 64 h.usr_size,
)

-- As many bytes as the environment says, with memory for one more.
pub read_form-whole :
    (b x buf : Bytes)
    → length buf ≡ length b + 1
    → read_form (length b) (b ++ x) buf ≡ done (b ++ 0 ∷ [])
unfolding read_form
read_form-whole [] x [] e = absurd (omega arith)
read_form-whole [] x (d ∷ []) e = refl
read_form-whole [] x (d ∷ d' ∷ buf) e = absurd (omega arith)
read_form-whole (c ∷ b) x [] e = absurd (omega arith)
read_form-whole (c ∷ b) x (d ∷ buf) e = rw (read_form-whole b x buf (omega arith))

to_int-pos : (n : ℕ) → n ≤ int_max → to_int (pos n) ≡ pos n
to_int-pos n le =
    let same : n % 4294967296 ≡ n = omega arith in
    let low : ltb n 2147483648 ≡ true = lt→ltb n 2147483648 (omega arith) in rw (same, low)

pub content_len-number :
    (d r : Bytes)
    → IsDecimal d
    → number d 0 ≤ int_max
    → content_len (some (d ++ 0 ∷ r)) ≡ done (pos (number d 0))
unfolding content_len
content_len-number d r h le = rw (strtol-number d r h le, to_int-pos (number d 0) le)
