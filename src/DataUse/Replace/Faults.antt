-- ===== src/DataUse/Replace/Faults.antt =====
-- Where `str_replace` leaves the block that it allocates.
use distributed_storage.Base.{ℕ, suc, ◌≤◌, ◌≡◌, refl, some, [], ◌∷◌, ◌++◌, length, arith, ne→==}
use distributed_storage.Clib.Exec.{fault}
use distributed_storage.Clib.Strings.{Bytes, IsText, tail_at, strcat, get_at}
use distributed_storage.Clib.Copy.{strcpy-fault}
use distributed_storage.Clib.First.{Absent, strstr-Absent}
use distributed_storage.Clib.Search.{strlen-text, strstr_at-tail}
use distributed_storage.DataUse.Replace.{replace_loop, copy_back, str_replace}

-- A text that is as long as the array never fits behind what the array holds.
strcat-fault :
    (dst t s : Bytes) → IsText t → length dst ≤ length t → strcat dst (t ++ 0 ∷ s) ≡ fault
unfolding strcat
strcat-fault [] t s h le = refl
strcat-fault (d ∷ dst) t s h le =
    ground (arith, strcpy-fault t s (d ∷ dst) h le, strcat-fault dst t s h)

-- Where the key does not occur in a text that is not empty, the text is copied into a block that
-- has no room for the byte 0 behind it, whatever the block held: a write past its end.
pub str_replace-Absent :
    (c : ℕ) (t r key replace block : Bytes)
    → IsText (c ∷ t)
    → length block ≡ length (c ∷ t)
    → Absent key ((c ∷ t) ++ 0 ∷ r) (suc (length (c ∷ t)))
    → str_replace (some ((c ∷ t) ++ 0 ∷ r)) (some key) (some replace) (some block) ≡ fault
unfolding str_replace replace_loop copy_back tail_at get_at
str_replace-Absent c t r key replace block text len absent = rw (
  strlen-text (c ∷ t) r text,
  strstr_at-tail (c ∷ (t ++ 0 ∷ r)) 0 (c ∷ (t ++ 0 ∷ r)) key (unfold tail_at in refl),
  strstr-Absent (c ∷ t) r key text absent,
  ne→== c 0 text.0,
  strcat-fault block (c ∷ t) r text (omega arith),
)
