-- ===== src/Usefull/Query/Value.antt =====
-- What `get_query_string` finds: the value behind the first place where the key's bytes stand.
use distributed_storage.Base.{
  Bool-cases, inl, inr, ltb, ltb→lt, ltb→le, ℕ, suc, ◌+◌, ◌≤◌, ◌<◌, ◌≡◌, refl, ◌∙◌, Bool, true,
  false, Option, some, none, [], ◌∷◌, ◌++◌, arith, length, drop, All, ◌==◌, ◌||◌, ℤ, pos, minus_one,
  if◌then◌else◌,
}
use distributed_storage.Clib.Exec.{done, fault, ◌>>=◌, >>=-eq-done}
use distributed_storage.Clib.Strings.{Bytes, codes, IsText, tail_at, strstr, strlen}
use distributed_storage.Clib.First.{Absent, starts_with-append, strstr-first, strstr-Absent}
use distributed_storage.Clib.Put.{put_text, put_text-fault}
use distributed_storage.Clib.Search.{tail_at-add, tail_at-append_self, tail_at-append}
use distributed_storage.Usefull.Query.{value_len, get_query_string, get_parameter, get_usr}

-- The bytes that end a value.
abbrev pub ends_value : ℕ → Bool
ends_value c = c == 0 || c == b'#' || c == b'&'

abbrev pub IsValue : Bytes → Type 0
IsValue = All (λ c. ends_value c ≡ false)

value_len-stop :
    (v : Bytes) (c : ℕ) (s : Bytes)
    → IsValue v
    → ends_value c ≡ true
    → value_len (v ++ c ∷ s) ≡ done (length v)
unfolding value_len
value_len-stop [] c s h stop = rw stop
value_len-stop (d ∷ v) c s h stop = rw (h.0, value_len-stop v c s h.1 stop)

pub IsValue-IsText : (v : Bytes) → IsValue v → IsText v
IsValue-IsText [] h = tt
IsValue-IsText (c ∷ v) h = (ground arith, IsValue-IsText v h.1)

-- The query: `before`, the key, one byte that is passed over unread, and the value.
module _ (before : Bytes) (k : ℕ) (ks : Bytes) (eq : ℕ) (v : Bytes) (c : ℕ) (s : Bytes) where
  abbrev pub query : Bytes
  query = before ++ (k ∷ (ks ++ eq ∷ (v ++ c ∷ s)))

  tail_at-query : tail_at query (length before + length (k ∷ ks) + 1) ≡ done (v ++ c ∷ s)
  tail_at-query =
      let key_at = tail_at-append before (k ∷ (ks ++ eq ∷ (v ++ c ∷ s))) (length (k ∷ ks)) in
      tail_at-add query (length before + length (k ∷ ks)) 1 (eq ∷ (v ++ c ∷ s))
        (key_at ∙ tail_at-append_self (k ∷ ks) (eq ∷ (v ++ c ∷ s)))
      ∙ unfold tail_at in refl

  module _ (text : IsText before) (first : Absent (k ∷ ks) query (length before)) (val : IsValue v)
      (stop : ends_value c ≡ true) (value : Bytes) (has_len : Bool) where
    found : strstr query (k ∷ ks) ≡ done (some (length before))
    found =
        strstr-first before k (ks ++ eq ∷ (v ++ c ∷ s)) (k ∷ ks) text first
          (starts_with-append (k ∷ ks) (eq ∷ (v ++ c ∷ s)))

    -- The key may stand anywhere, also inside another name: where its bytes first stand, one more
    -- byte is passed over, and what follows up to '&', '#' or the end is put into the array with a
    -- byte 0 behind it; the result is 0, and the length is stored where it is asked for. The array
    -- has room for the value and the byte 0.
    pub get_query_string-finds :
        length v < length value
        → get_query_string (some query) (k ∷ ks) value has_len
          ≡ done (
            pos 0,
            v ++ 0 ∷ drop (suc (length v)) value,
            if has_len then some (length v) else none,
          )
    unfolding get_query_string
    get_query_string-finds fits = rw (
      found,
      tail_at-query,
      value_len-stop v c s val stop,
      put_text v (c ∷ s) value (IsValue-IsText v val) fits,
    )

    -- A value that the array cannot hold together with a byte 0 is written past its end.
    pub get_query_string-overflow :
        length value ≤ length v → get_query_string (some query) (k ∷ ks) value has_len ≡ fault
    unfolding get_query_string
    get_query_string-overflow over = rw (
      found,
      tail_at-query,
      value_len-stop v c s val stop,
      put_text-fault v (c ∷ s) value (IsValue-IsText v val) over,
    )

-- The key may stand anywhere, also inside another name: where its bytes first stand, one more byte is
-- passed over, and what follows up to '&', '#' or the end is put into the array with a byte 0 behind
-- it, if the array has room for both; the result is 0, and the length is stored where it is asked
-- for. Any smaller array is written past its end.
pub get_query_string_bounds :
    (before : Bytes) (k : ℕ) (ks : Bytes) (eq : ℕ) (v : Bytes) (c : ℕ) (s value : Bytes)
    (has_len : Bool)
    → IsText before
    → Absent (k ∷ ks) (query before k ks eq v c s) (length before)
    → IsValue v
    → ends_value c ≡ true
    → get_query_string (some (query before k ks eq v c s)) (k ∷ ks) value has_len ≡ (
        if ltb (length v) (length value)
        then done
            (pos 0, v ++ 0 ∷ drop (suc (length v)) value, if has_len then some (length v) else none)
        else fault)
get_query_string_bounds before k ks eq v c s value has_len text first val stop =
    elim (Bool-cases (ltb (length v) (length value))) [
      | inl fits ↦ rw fits (
          get_query_string-finds before k ks eq v c s text first val stop value has_len
            (ltb→lt (length v) (length value) fits))
      | inr over ↦ rw over (
          get_query_string-overflow before k ks eq v c s text first val stop value has_len
            (ltb→le (length v) (length value) over))
    ]

-- A query that does not hold the key: the result is -1, and the array is as it was.
pub get_query_string-Absent :
    (t r key value : Bytes) (has_len : Bool)
    → IsText t
    → Absent key (t ++ 0 ∷ r) (suc (length t))
    → get_query_string (some (t ++ 0 ∷ r)) key value has_len ≡ done (minus_one, value, none)
unfolding get_query_string
get_query_string-Absent t r key value has_len h absent = rw (strstr-Absent t r key h absent)

-- `get_usr` never reports a failure: whenever it returns, its result is 0, whether the parameter was
-- there or not.
pub get_usr_zero :
    (query : Option Bytes) (usr usr' : Bytes) (ret : ℤ)
    → get_usr query usr ≡ done (ret, usr')
    → ret ≡ pos 0
unfolding get_usr get_parameter
get_usr_zero query usr usr' ret h =
    let (r, _, h') =
      >>=-eq-done (get_query_string query (codes "user") usr false)
        (λ r. strlen r.1 >>= λ n. done (pos 0, r.1)) h in
    let (n, _, e) = >>=-eq-done (strlen r.1) (λ n. done (pos 0, r.1)) h' in cc
