-- ===== src/Usefull/TrimSpace/Trims.antt =====
-- `trim_space` on a text between spaces: its loops and its copy.
use distributed_storage.Base.{
  ℕ, zero, suc, ◌+◌, ◌-◌, ◌<◌, ◌≤◌, ◌≡◌, ◌≢◌, refl, ◌∙◌, true, false, ◌++◌, ◌∷◌, [], length, drop,
  arith, pos, if◌then◌else◌, Bool-cases, inl, inr, All, All-append, append_assoc, length-append,
  zero-add, suc-add, add-suc, add-zero, sym, ◌==◌, lt→ltb, ne→==,
}
use distributed_storage.Clib.Exec.{done, fault}
use distributed_storage.Clib.Strings.{Bytes, IsText, strlen, get_at, put_prefix}
use distributed_storage.Clib.Chars.{isspace}
use distributed_storage.Clib.Search.{strlen-text, tail_at-append_self}
use distributed_storage.Clib.Put.{put_text}
use distributed_storage.Usefull.TrimSpace.{skip_space, retreat, may_copy, trim_space}

abbrev pub IsBlank : Bytes → Type 0
IsBlank = All (λ c. isspace c ≡ true)

isspace-ne-zero : (c : ℕ) → isspace c ≡ true → c ≢ 0
unfolding isspace
isspace-ne-zero c h = ground arith

pub IsBlank-IsText : (a : Bytes) → IsBlank a → IsText a
IsBlank-IsText [] h = tt
IsBlank-IsText (c ∷ a) h = (isspace-ne-zero c h.0, IsBlank-IsText a h.1)

skip_space-blank :
    (a : Bytes) (c : ℕ) (s : Bytes)
    → IsBlank a
    → isspace c ≡ false
    → skip_space (a ++ c ∷ s) ≡ done (length a)
unfolding skip_space
skip_space-blank [] c s h stop = rw stop
skip_space-blank (d ∷ a) c s h stop =
    rw (h.0, ne→== d 0 (isspace-ne-zero d h.0), skip_space-blank a c s h.1 stop)

get_at-append : (u s : Bytes) (n : ℕ) → get_at (u ++ s) (length u + n) ≡ get_at s n
unfolding get_at
get_at-append [] s n = rw zero-add
get_at-append (x ∷ u) s n = rw suc-add (get_at-append u s n)

get_at-blank :
    (z s : Bytes) (n : ℕ)
    → IsBlank z
    → n < length z
    → (c : ℕ) × (get_at (z ++ s) n ≡ done c) × (isspace c ≡ true)
unfolding get_at
get_at-blank [] s n h lt = absurd (omega arith)
get_at-blank (c ∷ z) s zero h lt = (c, refl, h.0)
get_at-blank (c ∷ z) s (suc n) h lt = get_at-blank z s n h.1 (omega arith)

retreat-stop :
    (src : Bytes) (begin p y : ℕ)
    → get_at src p ≡ done y
    → isspace y ≡ false
    → retreat src begin p ≡ done p
unfolding retreat
retreat-stop src begin zero y h stop = rw h
retreat-stop src begin (suc p) y h stop = rw (h, stop)

-- From any of the spaces `z` behind a byte that is none the loop comes back to that byte.
retreat-blank :
    (u : Bytes) (y : ℕ) (z s : Bytes) (begin n : ℕ)
    → IsBlank z
    → isspace y ≡ false
    → begin ≤ length u
    → n ≤ length z
    → retreat (u ++ y ∷ (z ++ s)) begin (length u + n) ≡ done (length u)
unfolding retreat
retreat-blank u y z s begin zero bz ny lo hi = rw add-zero (
    retreat-stop (u ++ y ∷ (z ++ s)) begin (length u) y
      (rw (sym (add-zero (length u))) (get_at-append u (y ∷ (z ++ s)) 0 ∙ unfold get_at in refl))
      ny)
retreat-blank u y z s begin (suc n) bz ny lo hi =
    let (c, at, blank) = get_at-blank z s n bz (omega arith) in
    let here : get_at (u ++ y ∷ (z ++ s)) (length u + suc n) ≡ done c =
      get_at-append u (y ∷ (z ++ s)) (suc n) ∙ unfold get_at in at in
    let next = retreat-blank u y z s begin n bz ny lo (omega arith) in
    let here' : get_at (u ++ y ∷ (z ++ s)) (suc (length u + n)) ≡ done c =
      rw (sym (add-suc (length u) n)) here in
    rw (add-suc (length u) n, here', blank, lt→ltb begin (suc (length u + n)) (omega arith)) next

-- The first byte of `m ++ y ∷ []`.
abbrev pub head_of : Bytes → ℕ → ℕ
head_of [] y = y
head_of (x ∷ m) y = x

skip_space-head :
    (a m : Bytes) (y : ℕ) (s : Bytes)
    → IsBlank a
    → isspace (head_of m y) ≡ false
    → skip_space (a ++ (m ++ y ∷ s)) ≡ done (length a)
skip_space-head a [] y s h stop = skip_space-blank a y s h stop
skip_space-head a (x ∷ m) y s h stop = skip_space-blank a x (m ++ y ∷ s) h stop

module _ (a m : Bytes) (y : ℕ) (z r : Bytes) (ba : IsBlank a) (bz : IsBlank z) (tm : IsText m)
    (first : isspace (head_of m y) ≡ false) (last : isspace y ≡ false) (ty : y ≢ 0) where
  abbrev pub spaced : Bytes
  spaced = a ++ (m ++ y ∷ (z ++ 0 ∷ r))

  strlen-spaced : strlen spaced ≡ done (length a + length m + 1 + length z)
  strlen-spaced =
      let text : IsText (a ++ (m ++ y ∷ z)) =
        All-append (λ c. c ≢ 0) a (m ++ y ∷ z) (IsBlank-IsText a ba)
          (All-append (λ c. c ≢ 0) m (y ∷ z) tm (ty, IsBlank-IsText z bz)) in
      let same : (a ++ (m ++ y ∷ z)) ++ 0 ∷ r ≡ spaced = simp append_assoc in
      let len : length (a ++ (m ++ y ∷ z)) ≡ length a + length m + 1 + length z =
        omega (arith, length-append a (m ++ y ∷ z), length-append m (y ∷ z)) in
      rw (sym same, sym len) (strlen-text (a ++ (m ++ y ∷ z)) r text)

  last_byte : retreat spaced (length a) (length (a ++ m) + length z) ≡ done (length (a ++ m))
  last_byte =
      let same : (a ++ m) ++ y ∷ (z ++ 0 ∷ r) ≡ spaced = append_assoc a m (y ∷ (z ++ 0 ∷ r)) in
      rw (sym same) (
        retreat-blank (a ++ m) y z (0 ∷ r) (length a) (length z) bz last
          (omega (arith, length-append a m)) (omega arith))

  moved :
      put_prefix spaced (m ++ y ∷ (z ++ 0 ∷ r)) (length (m ++ y ∷ []))
      ≡ done ((m ++ y ∷ []) ++ 0 ∷ drop (suc (length (m ++ y ∷ []))) spaced)
  moved =
      let same : (m ++ y ∷ []) ++ (z ++ 0 ∷ r) ≡ m ++ y ∷ (z ++ 0 ∷ r) =
        append_assoc m (y ∷ []) (z ++ 0 ∷ r) in
      rw same at (
        put_text (m ++ y ∷ []) (z ++ 0 ∷ r) spaced (All-append (λ c. c ≢ 0) m (y ∷ []) tm (ty, tt))
          (omega (
            arith,
            length-append m (y ∷ []),
            length-append a (m ++ y ∷ (z ++ 0 ∷ r)),
            length-append m (y ∷ (z ++ 0 ∷ r)),
            length-append z (0 ∷ r),
          )))

  -- trim_space returns 0 and leaves the text between the spaces at the front of the array, with a
  -- byte 0 behind it, if no space or at least as many spaces as the text has bytes stand in front
  -- of it; behind fewer spaces strncpy copies between parts of the array that overlap, which is
  -- undefined. The text is not empty, holds no byte 0, and neither begins nor ends with a space.
  pub trim_space-spaced : trim_space spaced ≡ (
      if may_copy (length a) (length (m ++ y ∷ []))
      then done (pos 0, (m ++ y ∷ []) ++ 0 ∷ drop (suc (length (m ++ y ∷ []))) spaced)
      else fault)
  unfolding trim_space
  trim_space-spaced =
      let n = length a + length m + 1 + length z in
      let some_text : (n == 0) ≡ false = ne→== n 0 (omega arith) in
      let from_end : n - 1 ≡ length (a ++ m) + length z = omega (arith, length-append a m) in
      let len : length (a ++ m) + 1 - length a ≡ length (m ++ y ∷ []) =
        omega (arith, length-append a m, length-append m (y ∷ [])) in
      rw
        (
          strlen-spaced,
          skip_space-head a m y (z ++ 0 ∷ r) ba first,
          some_text,
          from_end,
          last_byte,
          tail_at-append_self a (m ++ y ∷ (z ++ 0 ∷ r)),
          len,
        )
        (elim (Bool-cases (may_copy (length a) (length (m ++ y ∷ [])))) [
          | inl free ↦ rw (free, moved)
          | inr shared ↦ rw shared
        ])

-- On an empty text the loop from the end reads in front of the array.
pub trim_space-nil : (r : Bytes) → trim_space (0 ∷ r) ≡ fault
unfolding trim_space strlen skip_space isspace
trim_space-nil r = refl
