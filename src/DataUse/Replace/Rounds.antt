-- ===== src/DataUse/Replace/Rounds.antt =====
-- The loop of `str_replace` in a block that was cleared: the text that it has built.
use distributed_storage.Base.{
  ℕ, zero, suc, ◌+◌, ◌-◌, ◌<◌, ◌≡◌, ◌≢◌, refl, ap, ◌∙◌, sym, some, none, List, [], ◌∷◌, ◌++◌,
  length, arith, ne→==, All, All-append, add-zero, length-append, append_assoc, append-nil,
  sub-zero,
}
use distributed_storage.Clib.Exec.{done}
use distributed_storage.Clib.Strings.{
  Bytes, IsText, tail_at, strstr, strstr_at, starts_with, padded, shift,
}
use distributed_storage.Clib.Append.{strncat-padded}
use distributed_storage.Clib.Copy.{strncpy-zeros, strcat-padded}
use distributed_storage.Clib.First.{strstr-first, starts_with-append}
use distributed_storage.Clib.Search.{
  strstr_at-tail, strstr-append, tail_at-add, tail_at-append_self,
}
use distributed_storage.DataUse.Replace.{copy_part, replace_loop}

-- The parts with a separator behind each, and the last part.
abbrev pub joined : Bytes → List Bytes → Bytes → Bytes
joined sep [] last = last
joined sep (p ∷ ps) last = p ++ (sep ++ joined sep ps last)

-- The part lacks the byte 0 and the key's first byte.
abbrev pub Lacks : ℕ → Bytes → Type 0
Lacks k = All (λ c. (c ≢ 0) × (c ≢ k))

pub Lacks-IsText : (k : ℕ) (p : Bytes) → Lacks k p → IsText p
Lacks-IsText k [] h = tt
Lacks-IsText k (c ∷ p) h = (h.0.0, Lacks-IsText k p h.1)

-- The first copy goes into the cleared array, the others behind what it holds.
copy_part-padded :
    (count size : ℕ) (u p s : Bytes)
    → IsText u
    → IsText p
    → (count ≡ 0 → length u ≡ 0)
    → length u + length p < size
    → copy_part (count + 1) (padded size u) (p ++ s) (length p) ≡ done (padded size (u ++ p))
unfolding copy_part
copy_part-padded zero size [] p s hu hp start fits =
    rw sub-zero (strncpy-zeros size p s hp (omega arith))
copy_part-padded zero size (c ∷ u) p s hu hp start fits = absurd (omega (arith, start refl))
copy_part-padded (suc count) size u p s hu hp start fits =
    rw (ne→== (suc count + 1) 1 (omega arith)) (strncat-padded size u p s hu hp fits)

module _ (src : Bytes) (k : ℕ) (ks replace : Bytes) (size : ℕ) (tk : IsText (k ∷ ks))
    (tr : IsText replace) where
  abbrev key : Bytes
  key = k ∷ ks

  found_key :
      (q : ℕ) (p y : Bytes)
      → tail_at src q ≡ done (p ++ (key ++ y))
      → Lacks k p
      → strstr_at src q key ≡ done (some (q + length p))
  found_key q p y at h =
      strstr_at-tail src q (p ++ (key ++ y)) key at
      ∙ ap (shift q) (strstr-append p (key ++ y) k ks h)
      ∙ ap (λ e. shift q (shift (length p) e)) here
      ∙ ap (λ n. done (some n)) (rw add-zero)
    where
      here : strstr (key ++ y) key ≡ done (some 0)
      here =
          strstr-first [] k (ks ++ y) key tt (λ j lt. absurd (omega arith))
            (starts_with-append key y)

  no_key :
      (q : ℕ) (last r : Bytes)
      → tail_at src q ≡ done (last ++ 0 ∷ r)
      → Lacks k last
      → strstr_at src q key ≡ done none
  no_key q last r at h =
      strstr_at-tail src q (last ++ 0 ∷ r) key at
      ∙ ap (shift q) (strstr-append last (0 ∷ r) k ks h)
      ∙ ap (λ e. shift q (shift (length last) e)) here
    where
      here : strstr (0 ∷ r) key ≡ done none
      here = unfold strstr starts_with in rw (ne→== 0 k (λ e. tk.0 (sym e)))

  lengths :
      (u p : Bytes) (ps : List Bytes) (last : Bytes)
      → length u + length (joined replace (p ∷ ps) last)
        ≡ length ((u ++ p) ++ replace) + length (joined replace ps last)
  lengths u p ps last = omega (
    arith,
    length-append p (replace ++ joined replace ps last),
    length-append replace (joined replace ps last),
    length-append (u ++ p) replace,
    length-append u p,
  )

  pub loop-joined :
      (fuel : ℕ) (ps : List Bytes) (last r u : Bytes) (q count : ℕ)
      → length ps < fuel
      → tail_at src q ≡ done (joined key ps (last ++ 0 ∷ r))
      → All (Lacks k) ps
      → Lacks k last
      → IsText u
      → (count ≡ 0 → length u ≡ 0)
      → length u + length (joined replace ps last) < size
      → (q' : ℕ) × (replace_loop fuel src key replace q count (padded size u)
          ≡ done (some (padded size (u ++ joined replace ps []), q')))
        × (tail_at src q' ≡ done (last ++ 0 ∷ r))
  unfolding replace_loop
  loop-joined zero ps last r u q count fuel at h hl hu start fits = absurd (omega arith)
  loop-joined (suc n) [] last r u q count fuel at h hl hu start fits =
      (q, rw (no_key q last r at hl, append-nil), at)
  loop-joined (suc n) (p ∷ ps) last r u q count fuel at h hl hu start fits =
      let at_key =
        tail_at-add src q (length p) (p ++ (key ++ joined key ps (last ++ 0 ∷ r))) at
        ∙ tail_at-append_self p (key ++ joined key ps (last ++ 0 ∷ r)) in
      let at_next =
        tail_at-add src (q + length p) (length key) (key ++ joined key ps (last ++ 0 ∷ r)) at_key
        ∙ tail_at-append_self key (joined key ps (last ++ 0 ∷ r)) in
      let hp = Lacks-IsText k p h.0 in
      let hup = All-append (λ c. c ≢ 0) u p hu hp in
      let hnext = All-append (λ c. c ≢ 0) (u ++ p) replace hup tr in
      let (q', run, end) =
        loop-joined n ps last r ((u ++ p) ++ replace) (q + length p + length key) (count + 1)
          (omega arith) at_next h.1 hl hnext (λ e. absurd (omega arith))
          (omega (arith, lengths u p ps last)) in
      let len : q + length p - q ≡ length p = omega arith in
      let copied =
        copy_part-padded count size u p (key ++ joined key ps (last ++ 0 ∷ r)) hu hp start
          (omega (arith, lengths u p ps last, length-append (u ++ p) replace, length-append u p)) in
      let written =
        strcat-padded size (u ++ p) replace [] hup tr
          (omega (arith, lengths u p ps last, length-append (u ++ p) replace, length-append u p)) in
      let text : ((u ++ p) ++ replace) ++ joined replace ps []
          ≡ u ++ (p ++ (replace ++ joined replace ps [])) =
        simp append_assoc in
      (
        q',
        rw (
          found_key q p (joined key ps (last ++ 0 ∷ r)) at h.0,
          at,
          len,
          copied,
          written,
          run,
          text,
        ),
        end,
      )
