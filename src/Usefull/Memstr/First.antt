-- ===== src/Usefull/Memstr/First.antt =====
-- `memstr` finds the first occurrence among the first `full_data_len` bytes, whatever they hold.
use distributed_storage.Base.{
  ℕ, zero, suc, ◌+◌, ◌-◌, ◌<◌, ◌≤◌, ◌≡◌, refl, ap, ◌∙◌, true, false, some, none, ◌++◌, ◌∷◌, [],
  length, arith, pos, Bool-cases, inl, inr, length-append, ◌==◌, le→leb,
}
use distributed_storage.Clib.Exec.{done}
use distributed_storage.Clib.Strings.{Bytes, starts_with, shift}
use distributed_storage.Clib.First.{Absent, starts_with-append}
use distributed_storage.Usefull.Memstr.{memcmp_eq, memstr_loop, memstr}

module _ (k : ℕ) (ks : Bytes) where
  -- A round that does not find the text goes on, whichever of the two tests fails.
  pub memstr_loop_miss :
      (rounds c : ℕ) (cur : Bytes)
      → length (k ∷ ks) ≤ length (c ∷ cur)
      → starts_with (k ∷ ks) (c ∷ cur) ≡ false
      → memstr_loop (suc rounds) (c ∷ cur) k (k ∷ ks) ≡ shift 1 (memstr_loop rounds cur k (k ∷ ks))
  unfolding memstr_loop memcmp_eq
  memstr_loop_miss rounds c cur room miss = elim (Bool-cases (c == k)) [
    | inl same ↦ rw (same, le→leb (length (k ∷ ks)) (length (c ∷ cur)) room, miss)
    | inr other ↦ rw other
  ]

  memstr_loop_hit :
      (rounds : ℕ) (s : Bytes) → memstr_loop (suc rounds) (k ∷ (ks ++ s)) k (k ∷ ks) ≡ done (some 0)
  unfolding memstr_loop memcmp_eq
  memstr_loop_hit rounds s =
      let same : (k == k) ≡ true = ground arith in
      let room : length (k ∷ ks) ≤ length (k ∷ (ks ++ s)) = omega (arith, length-append ks s) in
      rw (
        same,
        le→leb (length (k ∷ ks)) (length (k ∷ (ks ++ s))) room,
        starts_with-append (k ∷ ks) s,
      )

  memstr_loop-first :
      (rounds : ℕ) (a s : Bytes)
      → length a < rounds
      → rounds + length ks ≤ length (a ++ (k ∷ (ks ++ s)))
      → Absent (k ∷ ks) (a ++ (k ∷ (ks ++ s))) (length a)
      → memstr_loop rounds (a ++ (k ∷ (ks ++ s))) k (k ∷ ks) ≡ done (some (length a))
  memstr_loop-first zero a s lt room absent = absurd (omega arith)
  memstr_loop-first (suc rounds) [] s lt room absent = memstr_loop_hit rounds s
  memstr_loop-first (suc rounds) (c ∷ a) s lt room absent =
      let ih =
        memstr_loop-first rounds a s (omega arith) (omega arith)
          (λ j h. absent (suc j) (omega arith)) in
      memstr_loop_miss rounds c (a ++ (k ∷ (ks ++ s))) (omega arith) (absent 0 (omega arith))
      ∙ ap (shift 1) ih
      ∙ ap (λ n. done (some n)) (omega arith)

  memstr_loop-none :
      (rounds : ℕ) (cur : Bytes)
      → rounds + length ks ≤ length cur
      → Absent (k ∷ ks) cur rounds
      → memstr_loop rounds cur k (k ∷ ks) ≡ done none
  memstr_loop-none zero cur room absent = unfold memstr_loop in refl
  memstr_loop-none (suc rounds) [] room absent = absurd (omega arith)
  memstr_loop-none (suc rounds) (c ∷ cur) room absent =
      memstr_loop_miss rounds c cur (omega arith) (absent 0 (omega arith))
      ∙ ap (shift 1)
          (memstr_loop-none rounds cur (omega arith) (λ j h. absent (suc j) (omega arith)))

  -- Where the text stands wholly within the first `len` bytes, and nowhere before, `memstr` returns
  -- its place. The bytes may hold the byte 0.
  pub memstr-first :
      (a s : Bytes) (len : ℕ)
      → len ≤ length (a ++ (k ∷ (ks ++ s)))
      → length a + length (k ∷ ks) ≤ len
      → Absent (k ∷ ks) (a ++ (k ∷ (ks ++ s))) (length a)
      → memstr (some (a ++ (k ∷ (ks ++ s)))) (pos len) (some (k ∷ ks)) ≡ done (some (length a))
  unfolding memstr
  memstr-first a s zero le within absent = absurd (omega arith)
  memstr-first a s (suc n) le within absent =
      memstr_loop-first (suc n + 1 - length (k ∷ ks)) a s (omega arith) (omega arith) absent

  -- Where it begins at no place that leaves room for it within the first `len` bytes, `memstr`
  -- returns NULL, and reads nothing behind those bytes.
  pub memstr-none :
      (data' : Bytes) (len : ℕ)
      → len ≤ length data'
      → length ks ≤ len
      → Absent (k ∷ ks) data' (len - length ks)
      → memstr (some data') (pos len) (some (k ∷ ks)) ≡ done none
  unfolding memstr
  memstr-none data' zero le within absent = refl
  memstr-none data' (suc n) le within absent =
      memstr_loop-none (suc n + 1 - length (k ∷ ks)) data' (omega arith)
        (λ j h. absent j (omega arith))
