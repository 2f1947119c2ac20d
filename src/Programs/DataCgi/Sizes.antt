-- ===== src/Programs/DataCgi/Sizes.antt =====
-- The sizes of the arrays of `main`.
use distributed_storage.Base.{
  ℕ, ◌≡◌, ap, ◌∙◌, Option, none, some, Bool, false, inl, inr, ℤ, pos, minus_one, length,
  if◌then◌else◌, suc, ◌+◌, ◌==◌,
}
use distributed_storage.Clib.Exec.{Exec, done, ◌>>=◌, >>=-eq-done, Exec-cases}
use distributed_storage.Clib.Lengths.{length-memset, length-strncpy, length-put_prefix}
use distributed_storage.Clib.Strings.{
  Bytes, memset, put_prefix, strstr, strlen, strncpy, tail_at, get_at, strcat,
}
use distributed_storage.DataUse.Replace.{str_replace, replace_loop, copy_back}
use distributed_storage.Usefull.Query.{get_query_string, get_parameter, value_len}

abbrev put_value : Bytes → Bool → Bytes → ℕ → Exec (ℤ × Bytes × Option ℕ)
put_value value has_len from k =
    put_prefix value from k >>= λ written. done (pos 0, written, if has_len then some k else none)

abbrev cut_value : Bytes → Bool → Bytes → Exec (ℤ × Bytes × Option ℕ)
cut_value value has_len from = value_len from >>= put_value value has_len from

cut_value-length :
    (m : Exec Bytes) (value v : Bytes) (has_len : Bool) (ret : ℤ) (n : Option ℕ)
    → (m >>= cut_value value has_len) ≡ done (ret, v, n)
    → length v ≡ length value
cut_value-length m value v has_len ret n h =
    let (from, _, h₁) = >>=-eq-done m (cut_value value has_len) h in
    let (k, _, h₂) = >>=-eq-done (value_len from) (put_value value has_len from) h₁ in
    let (written, put, h₃) =
      >>=-eq-done (put_prefix value from k)
        (λ written. done (pos 0, written, if has_len then some k else none)) h₂ in
    let same : v ≡ written = cc in ap length same ∙ length-put_prefix value from written k put

length-get_query_string :
    (q : Option Bytes) (key value v : Bytes) (has_len : Bool) (ret : ℤ) (n : Option ℕ)
    → get_query_string q key value has_len ≡ done (ret, v, n)
    → length v ≡ length value
unfolding get_query_string
length-get_query_string none key value v has_len ret n h = cc
length-get_query_string (some q) key value v has_len ret n h = elim (Exec-cases (strstr q key)) [
  | inl (none, e) ↦ let same : v ≡ value = cc (rw e at h) in ap length same
  | inl (some at, e) ↦
      cut_value-length (tail_at q (at + length key + 1)) value v has_len ret n (rw e at h)
  | inr (inl (k, e)) ↦ cc (rw e at h)
  | inr (inr e) ↦ cc (rw e at h)
]

pub length-get_parameter :
    (key : Bytes) (q : Option Bytes) (value v : Bytes) (ret : ℤ)
    → get_parameter key q value ≡ done (ret, v)
    → length v ≡ length value
unfolding get_parameter
length-get_parameter key q value v ret h =
    let (r, got, h') =
      >>=-eq-done (get_query_string q key value false) (λ r. strlen r.1 >>= λ n. done (pos 0, r.1))
        h in
    let (n, _, e) = >>=-eq-done (strlen r.1) (λ n. done (pos 0, r.1)) h' in
    let same : v ≡ r.1 = cc in
    ap length same ∙ length-get_query_string q key value r.1 false r.0 r.2 got

abbrev put_back : Bytes → ℕ → Bytes → Exec (ℤ × Bytes)
put_back src n str_buf =
    memset src (n + 1) >>= λ cleared. strncpy cleared str_buf n >>= λ written. done (pos 0, written)

abbrev add_rest : Bytes → ℕ → Bytes → ℕ → Bytes → Exec (ℤ × Bytes)
add_rest src n str_buf c from =
    (if c == 0 then done str_buf else strcat str_buf from) >>= put_back src n

length-copy_back :
    (src b : Bytes) (n : ℕ) (r : Bytes × ℕ) (ret : ℤ)
    → copy_back src n r ≡ done (ret, b)
    → length b ≡ length src
unfolding copy_back
length-copy_back src b n r ret h =
    let (c, _, h₁) =
      >>=-eq-done (get_at src r.1) (λ c. tail_at src r.1 >>= add_rest src n r.0 c) h in
    let (from, _, h₂) = >>=-eq-done (tail_at src r.1) (add_rest src n r.0 c) h₁ in
    let (str_buf, _, h₃) =
      >>=-eq-done (if c == 0 then done r.0 else strcat r.0 from) (put_back src n) h₂ in
    let (cleared, wiped, h₄) =
      >>=-eq-done (memset src (n + 1))
        (λ cleared. strncpy cleared str_buf n >>= λ written. done (pos 0, written)) h₃ in
    let (written, put, h₅) =
      >>=-eq-done (strncpy cleared str_buf n) (λ written. done (pos 0, written)) h₄ in
    let same : b ≡ written = cc in
    ap length same
    ∙ length-strncpy cleared str_buf written n put
    ∙ length-memset src cleared (n + 1) wiped

abbrev replaced : Bytes → ℕ → Option (Bytes × ℕ) → Exec (Option (ℤ × Option Bytes))
replaced src n o = elim o [
  | none ↦ done none
  | some r ↦ copy_back src n r >>= λ o. done (some (o.0, some o.1))
]

pub length-str_replace :
    (src key to b : Bytes) (block : Option Bytes) (ret : ℤ)
    → str_replace (some src) (some key) (some to) block ≡ done (some (ret, some b))
    → length b ≡ length src
unfolding str_replace
length-str_replace src key to b none ret h =
    let (n, _, e) = >>=-eq-done (strlen src) (λ n. done (some (minus_one, some src))) h in
    let same : b ≡ src = cc in ap length same
length-str_replace src key to b (some block) ret h =
    let (n, _, h₁) =
      >>=-eq-done (strlen src) (λ n. replace_loop (suc n) src key to 0 0 block >>= replaced src n)
        h in
    let (o, _, h₂) = >>=-eq-done (replace_loop (suc n) src key to 0 0 block) (replaced src n) h₁ in
    after o n h₂
  where
    after :
        (o : Option (Bytes × ℕ)) (n : ℕ)
        → replaced src n o ≡ done (some (ret, some b))
        → length b ≡ length src
    after none n h = cc
    after (some r) n h =
        let (q, run, e) = >>=-eq-done (copy_back src n r) (λ o. done (some (o.0, some o.1))) h in
        let same : b ≡ q.1 = cc in ap length same ∙ length-copy_back src q.1 n r q.0 run
