-- ===== src/DataUse/Replace/Replaces.antt =====
-- `str_replace` in a block that was cleared: every occurrence of the key is replaced.
use distributed_storage.Base.{
  ℕ, zero, suc, ◌+◌, ◌-◌, ◌<◌, ◌≤◌, ◌≡◌, ◌≢◌, refl, ap, ◌∙◌, sym, some, List, [], ◌∷◌, ◌++◌, length,
  arith, ne→==, All, drop, All-append, length-append, append_assoc, append-nil, pos, sub-zero,
  add-one,
}
use distributed_storage.Clib.Exec.{done}
use distributed_storage.Clib.Strings.{
  Bytes, IsText, tail_at, padded, zeros, get_at, memset, strncpy,
}
use distributed_storage.Clib.Append.{strncpy-pads}
use distributed_storage.Clib.Copy.{strcat-padded, memset_lem, padded-suc, length-zeros}
use distributed_storage.Clib.Search.{strlen-text}
use distributed_storage.DataUse.Replace.{copy_back, str_replace}
use distributed_storage.DataUse.Replace.Rounds.{joined, Lacks, Lacks-IsText, loop-joined}

get_at-tail : (b : Bytes) (p c : ℕ) (s : Bytes) → tail_at b p ≡ done (c ∷ s) → get_at b p ≡ done c
unfolding tail_at get_at
get_at-tail [] zero c s h = cc
get_at-tail [] (suc p) c s h = cc
get_at-tail (x ∷ b) zero c s h = cc
get_at-tail (x ∷ b) (suc p) c s h = get_at-tail b p c s h

drop-zeros_append : (n : ℕ) (x : Bytes) → drop n (zeros (suc n) ++ x) ≡ 0 ∷ x
drop-zeros_append zero x = refl
drop-zeros_append (suc n) x = drop-zeros_append n x

drop-suc_append : (t : Bytes) (c : ℕ) (r : Bytes) → drop (suc (length t)) (t ++ c ∷ r) ≡ r
drop-suc_append [] c r = refl
drop-suc_append (x ∷ t) c r = drop-suc_append t c r

-- Behind the loop: the rest is appended, and the text and zeros go back into the array.
module _ (t r res : Bytes) (tres : IsText res) (shorter : length res < length t) where
  cleared : memset (t ++ 0 ∷ r) (length t + 1) ≡ done (zeros (suc (length t)) ++ r)
  cleared = rw (
    add-one (length t),
    memset_lem (t ++ 0 ∷ r) (suc (length t)) (omega (arith, length-append t (0 ∷ r))),
    drop-suc_append t 0 r,
  )

  back :
      strncpy (zeros (suc (length t)) ++ r) (padded (length t) res) (length t)
      ≡ done (padded (length t) res ++ 0 ∷ r)
  back =
      let room : length t ≤ length (zeros (suc (length t)) ++ r) =
        omega (arith, length-append (zeros (suc (length t))) r, length-zeros (suc (length t))) in
      let k = length t - length res - 1 in
      let copied =
        strncpy-pads res (zeros k) (zeros (suc (length t)) ++ r) (length t) tres (omega arith)
          room in
      rw (sym (padded-suc (length t) res shorter)) at copied
      ∙ ap (λ x. done (padded (length t) res ++ x)) (drop-zeros_append (length t) r)

  copy_back-rest :
      (last u : Bytes) (q : ℕ)
      → tail_at (t ++ 0 ∷ r) q ≡ done (last ++ 0 ∷ r)
      → IsText last
      → IsText u
      → u ++ last ≡ res
      → copy_back (t ++ 0 ∷ r) (length t) (padded (length t) u, q)
        ≡ done (pos 0, padded (length t) res ++ 0 ∷ r)
  unfolding copy_back
  copy_back-rest [] u q at hl hu e =
      let same : u ≡ res = sym (append-nil u) ∙ e in
      rw (get_at-tail (t ++ 0 ∷ r) q 0 r at, at, same, cleared, back)
  copy_back-rest (c ∷ last) u q at hl hu e =
      let fits : length u + length (c ∷ last) < length t =
        omega (arith, ap length e, length-append u (c ∷ last)) in
      rw (
        get_at-tail (t ++ 0 ∷ r) q c (last ++ 0 ∷ r) at,
        at,
        ne→== c 0 hl.0,
        strcat-padded (length t) u (c ∷ last) r hu hl fits,
        e,
        cleared,
        back,
      )

joined-append :
    (sep : Bytes) (ps : List Bytes) (x y : Bytes) → joined sep ps (x ++ y) ≡ joined sep ps x ++ y
joined-append sep [] x y = refl
joined-append sep (p ∷ ps) x y = simp (joined-append sep ps, append_assoc)

pub joined-IsText :
    (k : ℕ) (sep : Bytes) (ps : List Bytes) (last : Bytes)
    → IsText sep
    → All (Lacks k) ps
    → IsText last
    → IsText (joined sep ps last)
joined-IsText k sep [] last hs h hl = hl
joined-IsText k sep (p ∷ ps) last hs h hl =
    All-append (λ c. c ≢ 0) p (sep ++ joined sep ps last) (Lacks-IsText k p h.0)
      (All-append (λ c. c ≢ 0) sep (joined sep ps last) hs (joined-IsText k sep ps last hs h.1 hl))

length-joined :
    (k : ℕ) (ks : Bytes) (ps : List Bytes) (last : Bytes)
    → length ps ≤ length (joined (k ∷ ks) ps last)
length-joined k ks [] last = omega arith
length-joined k ks (p ∷ ps) last = omega (
  arith,
  length-joined k ks ps last,
  length-append p (k ∷ (ks ++ joined (k ∷ ks) ps last)),
  length-append ks (joined (k ∷ ks) ps last),
)

-- In a block that was cleared every occurrence of the key is replaced, for a text of parts that lack
-- the key's first byte, with the key between them: the array then holds the parts with the
-- replacement between them, zeros behind it up to the length that it had, and what stood behind. The
-- result is 0, and the loop ends. The text with the replacements is shorter than it was.
pub str_replace-joined :
    (k : ℕ) (ks replace : Bytes) (ps : List Bytes) (last r : Bytes)
    → IsText (k ∷ ks)
    → IsText replace
    → All (Lacks k) ps
    → Lacks k last
    → length (joined replace ps last) < length (joined (k ∷ ks) ps last)
    → str_replace
        (some (joined (k ∷ ks) ps last ++ 0 ∷ r))
        (some (k ∷ ks))
        (some replace)
        (some (zeros (length (joined (k ∷ ks) ps last))))
      ≡ done (
          some (
            pos 0,
            some (padded (length (joined (k ∷ ks) ps last)) (joined replace ps last) ++ 0 ∷ r),
          ))
unfolding str_replace tail_at
str_replace-joined k ks replace ps last r tk trep h hl shorter =
    let t = joined (k ∷ ks) ps last in
    let res = joined replace ps last in
    let tl = Lacks-IsText k last hl in
    let tt' = joined-IsText k (k ∷ ks) ps last tk h tl in
    let tres = joined-IsText k replace ps last trep h tl in
    let at : tail_at (t ++ 0 ∷ r) 0 ≡ done (joined (k ∷ ks) ps (last ++ 0 ∷ r)) =
      ap done (sym (joined-append (k ∷ ks) ps last (0 ∷ r))) in
    let (q, run, rest) =
      loop-joined (t ++ 0 ∷ r) k ks replace (length t) tk trep (suc (length t)) ps last r [] 0 0
        (omega (arith, length-joined k ks ps last)) at h hl tt (λ e. refl) (omega arith) in
    let start = rw sub-zero at run in
    let text = sym (joined-append replace ps [] last) in
    let tdone = joined-IsText k replace ps [] trep h tt in
    rw (
      strlen-text t r tt',
      start,
      copy_back-rest t r res tres shorter last (joined replace ps []) q rest tl tdone text,
    )
