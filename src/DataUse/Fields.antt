-- ===== src/DataUse/Fields.antt =====
-- `get_value_by_redis` of src/data_use.c: one field of a value of the list FILE_INFO_LIST, by the
-- number of the field. Pointers into `redis_value` are offsets from its first byte.
pub mod Loops
pub mod Reads
pub mod RoundTrip
use distributed_storage.Base.{
  ℕ, zero, suc, ◌+◌, ◌-◌, none, some, ◌&&◌, ◌==◌, ltb, if◌then◌else◌, ℤ, pos, negsuc, ltb_ℤ,
}
use distributed_storage.Clib.Exec.{Exec, done, fault, ◌>>=◌, nonnull}
use distributed_storage.Clib.Strings.{
  Bytes, codes, tail_at, strlen, strstr_at, memset, strncpy, strcpy,
}

-- `char key[] = "||"` and `char key_error[] = "||||"`
abbrev pub key : Bytes
key = codes "||"

abbrev pub key_error : Bytes
key_error = codes "||||"

-- The variables of the loops over the fields.
pub record Scan : Type 0 where
  pub begin : ℕ
  pub end : ℕ
  pub first : ℕ

-- `for (i = 0; i < rounds + i; i++) { end = strstr(begin, key); begin = end + key_len;
-- if (i == mark) first = begin; }`; a NULL from `strstr` is moved, which is a fault.
unfoldable pub scan_fields : Bytes → ℕ → ℕ → ℕ → Scan → Exec Scan
scan_fields redis_value zero i mark s = done s
scan_fields redis_value (suc rounds) i mark s = do
  found ← strstr_at redis_value s.begin key
  end ← nonnull found
  let begin = end + 2
  scan_fields redis_value rounds (i + 1) mark
      (record { begin = begin; end = end; first = if i == mark then begin else s.first })

abbrev pub start : Scan
start = record { begin = 0; end = 0; first = 0 }

-- `value_len = ((end - from) > max_len) ? max_len : (end - from); strncpy(value, from, value_len)`.
-- A negative length is a huge `size_t`, and `strncpy` fills that many bytes: a fault.
unfoldable pub copy_span : Bytes → ℕ → ℕ → Bytes → ℕ → Exec Bytes
copy_span redis_value from end value max_len =
    if ltb end from
    then fault
    else tail_at redis_value from >>= λ src.
        strncpy value src (if ltb max_len (end - from) then max_len else end - from)

-- case 1
unfoldable pub file_id_field : Bytes → Bytes → ℕ → Exec Bytes
file_id_field redis_value value max_len = do
  found ← strstr_at redis_value 0 key
  end ← nonnull found
  copy_span redis_value 0 end value max_len

-- cases 2 and 3, and the `else` branches of cases 4 and 5: field `n + 2` stands between two keys
unfoldable pub middle_field : ℕ → Bytes → Bytes → ℕ → Exec Bytes
middle_field n redis_value value max_len = do
  s ← scan_fields redis_value (suc (suc n)) 0 n start
  copy_span redis_value s.first s.end value max_len

-- case 4
unfoldable pub create_time_field : Bytes → Bytes → ℕ → Exec Bytes
create_time_field redis_value value max_len = do
  p ← strstr_at redis_value 0 key_error
  elim p [
    | some p ↦
        scan_fields redis_value 3 0 3 start >>= λ s. copy_span redis_value s.begin p value max_len
    | none ↦ middle_field 2 redis_value value max_len
  ]

-- case 5
unfoldable pub user_field : Bytes → Bytes → ℕ → Exec Bytes
user_field redis_value value max_len = do
  p ← strstr_at redis_value 0 key_error
  elim p [ some p ↦ memset value 10 | none ↦ middle_field 3 redis_value value max_len ]

-- case 6
unfoldable pub kind_field : Bytes → Bytes → ℕ → Exec Bytes
kind_field redis_value value max_len = do
  p ← strstr_at redis_value 0 key_error
  elim p [
    | some p ↦ tail_at redis_value (p + 4) >>= strcpy value
    | none ↦ scan_fields redis_value 5 0 5 start >>= λ s. tail_at redis_value s.begin >>= λ src.
        strlen src >>= λ n. strncpy value src (if ltb max_len n then max_len else n)
  ]

-- the `switch`
unfoldable pub select_field : ℕ → Bytes → Bytes → ℕ → Exec Bytes
select_field word_num redis_value value max_len =
    if word_num == 1
    then file_id_field redis_value value max_len
    else if word_num == 2
    then middle_field 0 redis_value value max_len
    else if word_num == 3
    then middle_field 1 redis_value value max_len
    else if word_num == 4
    then create_time_field redis_value value max_len
    else if word_num == 5
    then user_field redis_value value max_len
    else if word_num == 6
    then kind_field redis_value value max_len
    else done value

abbrev switch_on : ℤ → Bytes → Bytes → ℕ → Exec Bytes
switch_on (pos n) = select_field n
switch_on (negsuc n) = λ redis_value value max_len. done value

-- The result and the array `value`; the guard is written with `&&` in the source.
unfoldable pub get_value_by_redis : Bytes → ℤ → Bytes → ℕ → Exec (ℤ × Bytes)
get_value_by_redis redis_value word_num value max_len =
    if ltb_ℤ word_num (pos 1) && ltb_ℤ (pos 6) word_num
    then done (pos 1, value)
    else switch_on word_num redis_value value max_len >>= λ v. done (pos 0, v)
