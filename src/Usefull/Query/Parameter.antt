-- ===== src/Usefull/Query/Parameter.antt =====
-- What the five functions put into their arrays.
use distributed_storage.Base.{ℕ, suc, ◌<◌, ◌≡◌, true, false, some, ◌∷◌, ◌++◌, length, drop, pos}
use distributed_storage.Clib.Exec.{done}
use distributed_storage.Clib.First.{Absent}
use distributed_storage.Clib.Search.{strlen-text}
use distributed_storage.Clib.Strings.{Bytes, IsText}
use distributed_storage.Usefull.Query.{get_parameter}
use distributed_storage.Usefull.Query.Value.{
  IsValue, IsValue-IsText, ends_value, query, get_query_string-finds,
}

-- The value behind the first place of the key.
pub get_parameter-value :
    (before : Bytes) (k : ℕ) (ks : Bytes) (eq : ℕ) (v : Bytes) (c : ℕ) (s value : Bytes)
    → IsText before
    → Absent (k ∷ ks) (query before k ks eq v c s) (length before)
    → IsValue v
    → ends_value c ≡ true
    → length v < length value
    → get_parameter (k ∷ ks) (some (query before k ks eq v c s)) value
      ≡ done (pos 0, v ++ 0 ∷ drop (suc (length v)) value)
unfolding get_parameter
get_parameter-value before k ks eq v c s value text first val stop fits = rw (
  get_query_string-finds before k ks eq v c s text first val stop value false fits,
  strlen-text v (drop (suc (length v)) value) (IsValue-IsText v val),
)
