-- ===== src/RedisOp/Hash/Text.antt =====
-- The text of the command that writes a hash table.
use distributed_storage.Base.{
  ℕ, ◌+◌, ◌<◌, ◌≤◌, ◌≡◌, ◌≢◌, some, List, [], ◌∷◌, ◌++◌, All, All-append, append_assoc, append-nil,
  add-zero, sub-zero, arith, length, length-append, map, leb, false,
}
use distributed_storage.Clib.Append.{memset-whole, strncat-strcat}
use distributed_storage.Clib.Copy.{strcat-padded}
use distributed_storage.Clib.Exec.{done}
use distributed_storage.Clib.Search.{strlen-text}
use distributed_storage.Clib.Strings.{Bytes, IsText, codes, padded, zeros, strcat}
use distributed_storage.RedisOp.Hash.{
  Buffer, Realloc, buf_unit, grow, uint32, add_part, add_array, add_space, add_pairs,
  make_hmset_command,
}

-- The pairs behind the key.
abbrev pub pairs_text : List (Bytes × Bytes) → Bytes
pairs_text [] = []
pairs_text (p ∷ ps) = b' ' ∷ (p.0 ++ b' ' ∷ (p.1 ++ pairs_text ps))

-- Texts that the arrays of a field and of a value can hold.
abbrev pub IsPair : Bytes × Bytes → Type 0
IsPair p = (IsText p.0 × (length p.0 < 100)) × (IsText p.1 × (length p.1 < 1024))

-- The arrays of a pair: a byte 0 and more stand behind each text.
abbrev pub in_arrays : Bytes → Bytes × Bytes → Bytes × Bytes
in_arrays r p = (p.0 ++ 0 ∷ r, p.1 ++ 0 ∷ r)

abbrev buffer : Bytes → ℕ → Buffer
buffer u n = record { cmd = padded buf_unit u; buf_size = buf_unit; use_size = n }

no_wrap : (n : ℕ) → n < buf_unit → uint32 n ≡ n
unfolding buf_unit
no_wrap n h = omega arith

not_full : (n : ℕ) → n < buf_unit → leb buf_unit n ≡ false
not_full n h = ground arith

module _ (realloc : Realloc) where
  -- Below the size of the memory a part is put behind what is there.
  add_part-padded :
      (r u t : Bytes) (used n added : ℕ)
      → IsText u
      → IsText t
      → length t ≤ n
      → length u + length t < buf_unit
      → used + added < buf_unit
      → add_part realloc (t ++ 0 ∷ r) n added (buffer u used)
        ≡ done (some (buffer (u ++ t) (used + added)))
  unfolding add_part grow
  add_part-padded r u t used n added hu ht le fits room = rw (
    strncat-strcat t r (padded buf_unit u) n ht le,
    strcat-padded buf_unit u t r hu ht fits,
    no_wrap (used + added) room,
    not_full (used + added) room,
  )

  add_array-padded :
      (r u t : Bytes) (used n : ℕ)
      → IsText u
      → IsText t
      → length t ≤ n
      → length u ≤ used
      → used + length t < buf_unit
      → add_array realloc (t ++ 0 ∷ r) n (buffer u used)
        ≡ done (some (buffer (u ++ t) (used + length t)))
  add_array-padded r u t used n hu ht le small room =
      rw (strlen-text t r ht, add_part-padded r u t used n (length t) hu ht le (omega arith) room)

  add_space-padded :
      (u : Bytes) (used : ℕ)
      → IsText u
      → length u ≤ used
      → used + 1 < buf_unit
      → add_space realloc (buffer u used) ≡ done (some (buffer (u ++ codes " ") (used + 1)))
  add_space-padded u used hu small room =
      add_part-padded [] u (codes " ") used 1 1 hu (omega arith) (omega arith) (omega arith) room

  add_pairs-padded :
      (r u : Bytes) (used : ℕ) (ps : List (Bytes × Bytes))
      → IsText u
      → All IsPair ps
      → length u ≤ used
      → used + length (pairs_text ps) < buf_unit
      → add_pairs realloc (map (in_arrays r) ps) (buffer u used)
        ≡ done (some (buffer (u ++ pairs_text ps) (used + length (pairs_text ps))))
  unfolding add_pairs
  add_pairs-padded r u used [] hu h small room = rw (append-nil, add-zero)
  add_pairs-padded r u used ((f, v) ∷ ps) hu ((hf, hv), h) small room =
      let sp = codes " " in
      let u₁ = u ++ sp in
      let u₂ = u₁ ++ f in
      let u₃ = u₂ ++ sp in
      let u₄ = u₃ ++ v in
      let n₁ = length-append u sp in
      let n₂ = length-append u₁ f in
      let n₃ = length-append u₂ sp in
      let n₄ = length-append u₃ v in
      let t₁ = All-append (λ c. c ≢ 0) u sp hu (omega arith) in
      let t₂ = All-append (λ c. c ≢ 0) u₁ f t₁ hf.0 in
      let t₃ = All-append (λ c. c ≢ 0) u₂ sp t₂ (omega arith) in
      let t₄ = All-append (λ c. c ≢ 0) u₃ v t₃ hv.0 in
      let m₁ = length-append f (b' ' ∷ (v ++ pairs_text ps)) in
      let m₂ = length-append v (pairs_text ps) in
      let used₄ = used + 1 + length f + 1 + length v in
      let text : u₄ ++ pairs_text ps ≡ u ++ b' ' ∷ (f ++ b' ' ∷ (v ++ pairs_text ps)) =
        simp append_assoc in
      let size : used₄ + length (pairs_text ps) ≡ used + length (pairs_text ((f, v) ∷ ps)) =
        omega (arith, m₁, m₂) in
      rw (
        add_space-padded u used hu small (omega (arith, m₁, m₂)),
        add_array-padded r u₁ f (used + 1) 100 t₁ hf.0 (omega (arith, hf.1)) (omega (arith, n₁))
            (omega (arith, m₁, m₂)),
        add_space-padded u₂ (used + 1 + length f) t₂ (omega (arith, n₁, n₂))
            (omega (arith, m₁, m₂)),
        add_array-padded r u₃ v (used + 1 + length f + 1) 1024 t₃ hv.0 (omega (arith, hv.1))
            (omega (arith, n₁, n₂, n₃)) (omega (arith, m₁, m₂)),
        add_pairs-padded r u₄ used₄ ps t₄ h (omega (arith, n₁, n₂, n₃, n₄)) (omega (arith, m₁, m₂)),
        text,
        size,
      )

  -- Where the key, of at most 200 bytes, and the pairs stay below the size of the memory that is
  -- allocated first, counting 206 for what stands in front of the pairs, the command is "hmset", the
  -- key, and each field and its value with a space in front, whatever the memory held, and whatever
  -- `realloc` does. It is returned.
  pub make_hmset_command-pairs_text :
      (block key rk r : Bytes) (ps : List (Bytes × Bytes))
      → length block ≡ buf_unit
      → IsText key
      → length key ≤ 200
      → All IsPair ps
      → 206 + length (pairs_text ps) < buf_unit
      → make_hmset_command realloc (some block) (key ++ 0 ∷ rk) (map (in_arrays r) ps)
        ≡ done (some (padded buf_unit (codes "hmset " ++ key ++ pairs_text ps)))
  unfolding make_hmset_command
  make_hmset_command-pairs_text block key rk r ps len tk short h room =
      let word = codes "hmset" in
      let word_sp = codes "hmset " in
      let named = length-append word_sp key in
      let front = All-append (λ c. c ≢ 0) word_sp key (omega arith) tk in
      rw (
        memset-whole block buf_unit len,
        strncat-strcat word [] (zeros buf_unit) 6 (omega arith) (omega arith),
        first,
        strncat-strcat (codes " ") [] (padded buf_unit word) 1 (omega arith) (omega arith),
        strcat-padded buf_unit word (codes " ") [] (omega arith) (omega arith) (omega arith),
        strncat-strcat key rk (padded buf_unit word_sp) 200 tk short,
        strcat-padded buf_unit word_sp key rk (omega arith) tk (omega arith),
        add_pairs-padded r (word_sp ++ key) 206 ps front h (omega (arith, named)) room,
      )
    where
      first :
          strcat (zeros buf_unit) (codes "hmset" ++ 0 ∷ []) ≡ done (padded buf_unit (codes "hmset"))
      first =
          rw sub-zero at
            (strcat-padded buf_unit [] (codes "hmset") [] tt (omega arith) (omega arith))
