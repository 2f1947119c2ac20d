-- ===== src/Usefull/Memstr/Find.antt =====
-- `memstr` against a search in a list of bytes.
use distributed_storage.Base.{
  ℕ, zero, suc, ◌+◌, ◌-◌, ◌<◌, ◌≤◌, ◌≡◌, refl, true, false, some, none, ◌∷◌, [], Option, length,
  arith, pos, Bool-cases, inl, inr, ◌==◌, leb, le→leb, leb→le, take, length-take, if◌then◌else◌,
}
use distributed_storage.Clib.Exec.{done}
use distributed_storage.Clib.Strings.{Bytes, starts_with}
use distributed_storage.Usefull.Memstr.{memcmp_eq, memstr_loop, memstr}
use distributed_storage.Usefull.Memstr.First.{memstr_loop_miss}

-- The first place of the bytes `key` in `s`, by trying every place.
unfoldable pub find : Bytes → Bytes → Option ℕ
find key [] = none
find key (c ∷ s) =
    let later = find key s in
    if starts_with key (c ∷ s) then some 0 else elim later [ none ↦ none | some i ↦ some (1 + i) ]

starts_with-short : (key s : Bytes) → length s < length key → starts_with key s ≡ false
unfolding starts_with
starts_with-short [] s lt = absurd (omega arith)
starts_with-short (k ∷ key) [] lt = refl
starts_with-short (k ∷ key) (c ∷ s) lt = ground (arith, starts_with-short key s (omega arith))

-- The bytes behind the first `n` do not matter to a key that is not longer than `n`.
starts_with-take :
    (key s : Bytes) (n : ℕ) → length key ≤ n → starts_with key (take n s) ≡ starts_with key s
unfolding starts_with
starts_with-take [] s n le = refl
starts_with-take (k ∷ key) s zero le = absurd (omega arith)
starts_with-take (k ∷ key) [] (suc n) le = refl
starts_with-take (k ∷ key) (c ∷ s) (suc n) le = rw (starts_with-take key s n (omega arith))

find-short : (key s : Bytes) → length s < length key → find key s ≡ none
unfolding find
find-short key [] lt = refl
find-short key (c ∷ s) lt = rw (starts_with-short key (c ∷ s) lt, find-short key s (omega arith))

module _ (k : ℕ) (ks : Bytes) where
  memstr_loop_match :
      (rounds c : ℕ) (cur : Bytes)
      → length (k ∷ ks) ≤ length (c ∷ cur)
      → starts_with (k ∷ ks) (c ∷ cur) ≡ true
      → memstr_loop (suc rounds) (c ∷ cur) k (k ∷ ks) ≡ done (some 0)
  unfolding memstr_loop memcmp_eq starts_with
  memstr_loop_match rounds c cur room hit =
      let first : (c == k) ≡ true = ground (arith, hit) in
      let rest : starts_with ks cur ≡ true = ground (arith, hit) in
      rw (first, le→leb (length (k ∷ ks)) (length (c ∷ cur)) room, rest)

  memstr_loop-find :
      (n : ℕ) (cur : Bytes)
      → n ≤ length cur
      → memstr_loop (n - length ks) cur k (k ∷ ks) ≡ done (find (k ∷ ks) (take n cur))
  unfolding find
  memstr_loop-find zero cur le =
      let none_left : zero - length ks ≡ 0 = omega arith in
      rw none_left (unfold memstr_loop in refl)
  memstr_loop-find (suc n) [] le = absurd (omega arith)
  memstr_loop-find (suc n) (c ∷ cur) le = elim (Bool-cases (leb (length ks) n)) [
    | inl room ↦
        let fits = leb→le (length ks) n room in
        let rounds : suc n - length ks ≡ suc (n - length ks) = omega (arith, fits) in
        let same = starts_with-take (k ∷ ks) (c ∷ cur) (suc n) (omega (arith, fits)) in
        elim (Bool-cases (starts_with (k ∷ ks) (c ∷ cur))) [
          | inl hit ↦
              rw (rounds, same, hit)
                (memstr_loop_match (n - length ks) c cur (omega (arith, fits)) hit)
          | inr miss ↦ rw (
            rounds,
            same,
            miss,
            memstr_loop_miss k ks (n - length ks) c cur (omega (arith, fits)) miss,
            memstr_loop-find n cur (omega arith),
          )
        ]
    | inr short ↦
        let lt : n < length ks = ground (arith, short) in
        let none_left : suc n - length ks ≡ 0 = omega arith in
        let few = length-take (suc n) (c ∷ cur) in
        rw (none_left, find-short (k ∷ ks) (take (suc n) (c ∷ cur)) (omega (arith, few, lt)))
          (unfold memstr_loop in refl)
  ]

  -- `memstr` gives the first place of the text within the first `len` bytes, and NULL where it has none
  -- there, as a search that tries every place; it reads nothing behind those bytes, and ends, whatever
  -- they hold. The text is not empty, and the array has `len` bytes at least.
  pub memstr-find :
      (data' : Bytes) (len : ℕ)
      → len ≤ length data'
      → memstr (some data') (pos len) (some (k ∷ ks)) ≡ done (find (k ∷ ks) (take len data'))
  unfolding memstr find
  memstr-find data' zero le = refl
  memstr-find data' (suc n) le =
      let rounds : suc n + 1 - length (k ∷ ks) ≡ suc n - length ks = omega arith in
      rw (rounds) (memstr_loop-find (suc n) data' le)
