-- ===== src/Usefull/Suffix/Spec.antt =====
-- `get_file_suffix` against a description of the suffix.
use distributed_storage.Base.{
  ltb, ltb→lt, ltb→le, suc, ◌+◌, ◌-◌, ◌≤◌, ◌<◌, ◌≡◌, ◌≢◌, refl, ap, ◌∙◌, Option, some, none, [],
  ◌∷◌, ◌++◌, arith, length, drop, All, All-append, ◌⊎◌, Bool-cases, inl, inr, ap₂, subst, ◌==◌, pos,
  if◌then◌else◌, length-append, lt→ltb, le→ltb, append_assoc,
}
use distributed_storage.Clib.Exec.{Exec, done, fault, ◌>>=◌}
use distributed_storage.Clib.Strings.{
  Bytes, IsText, codes, cstring, strlen, strstr, strncpy, tail_at, starts_with, put_prefix,
}
use distributed_storage.Clib.Put.{strncpy-null, put_text, put_text-fault}
use distributed_storage.Clib.Copy.{strncpy-fault}
use distributed_storage.Clib.Search.{tail_at-append, strlen-text, strstr-append}
use distributed_storage.Usefull.Suffix.{get_file_suffix}

-- What follows the first dot, if there is one.
unfoldable pub after_dot : Bytes → Option Bytes
after_dot [] = none
after_dot (c ∷ t) = if c == b'.' then some t else after_dot t

unfoldable pub or_null : Option Bytes → Bytes
or_null none = codes "null"
or_null (some []) = codes "null"
or_null (some (c ∷ t)) = c ∷ t

-- The suffix of a file's name: "null" where no byte follows a dot.
unfoldable pub suffix_of : Bytes → Bytes
unfolding after_dot or_null
suffix_of t = or_null (after_dot t)

abbrev NoDot : Bytes → Type 0
NoDot = All (λ c. (c ≢ 0) × (c ≢ b'.'))

NoDot-IsText : (a : Bytes) → NoDot a → IsText a
NoDot-IsText [] h = tt
NoDot-IsText (c ∷ a) h = (h.0.0, NoDot-IsText a h.1)

after_dot-none : (t : Bytes) → IsText t → after_dot t ≡ none → NoDot t
unfolding after_dot
after_dot-none [] h e = tt
after_dot-none (c ∷ t) h e = ground (arith, after_dot-none t h.1)

after_dot-some :
    (t z : Bytes)
    → IsText t
    → after_dot t ≡ some z
    → (a : Bytes) × (t ≡ a ++ b'.' ∷ z) × NoDot a × IsText z
unfolding after_dot
after_dot-some [] z h e = cc
after_dot-some (c ∷ t) z h e = elim (Bool-cases (c == b'.')) [
  | inl dot ↦
      let same : t ≡ z = cc (rw dot at e) in
      let head : c ≡ b'.' = ground arith in
      ([], ap₂ (λ x y. x ∷ y) head same, tt, subst IsText same h.1)
  | inr plain ↦
      let (a, split, clean, text) = after_dot-some t z h.1 (rw plain at e) in
      let ne : c ≢ b'.' = ground arith in (c ∷ a, ap (◌∷◌ c) split, ((h.0, ne), clean), text)
]

strstr-dot_none : (t r : Bytes) → NoDot t → strstr (t ++ 0 ∷ r) (codes ".") ≡ done none
strstr-dot_none t r h = strstr-append t (0 ∷ r) b'.' [] h ∙ unfold strstr starts_with in refl

strstr-dot_some :
    (a s : Bytes) → NoDot a → strstr (a ++ b'.' ∷ s) (codes ".") ≡ done (some (length a))
strstr-dot_some a s h =
    strstr-append a (b'.' ∷ s) b'.' [] h
    ∙ unfold strstr starts_with in ap (λ n. done (some n)) (omega arith)

module _ (buf : Bytes) where
  -- No dot in the name.
  no_dot :
      (t r : Bytes)
      → IsText t
      → after_dot t ≡ none
      → get_file_suffix (some (t ++ 0 ∷ r)) (some buf)
        ≡ (strncpy buf (cstring (codes "null")) 5 >>= λ b. done (pos 0, some b))
  unfolding get_file_suffix
  no_dot t r h e = rw (strlen-text t r h, strstr-dot_none t r (after_dot-none t h e))

  module _ (a z r : Bytes) (ca : NoDot a) (hz : IsText z) where
    name_end : strlen (a ++ b'.' ∷ (z ++ 0 ∷ r)) ≡ done (length a + 1 + length z)
    name_end =
        let text : IsText (a ++ b'.' ∷ z) =
          All-append (λ c. c ≢ 0) a (b'.' ∷ z) (NoDot-IsText a ca) (omega arith, hz) in
        let here = strlen-text (a ++ b'.' ∷ z) r text in
        rw append_assoc at here ∙ ap done (omega (arith, length-append a (b'.' ∷ z)))

    behind_dot : tail_at (a ++ b'.' ∷ (z ++ 0 ∷ r)) (length a + 1) ≡ done (z ++ 0 ∷ r)
    behind_dot = tail_at-append a (b'.' ∷ (z ++ 0 ∷ r)) 1 ∙ unfold tail_at in refl

    -- Something follows the first dot.
    at_dot :
        0 < length z
        → get_file_suffix (some (a ++ b'.' ∷ (z ++ 0 ∷ r))) (some buf)
          ≡ (put_prefix buf (z ++ 0 ∷ r) (length z) >>= λ b. done (pos 0, some b))
    unfolding get_file_suffix
    at_dot lt =
        let len : length a + 1 + length z - (length a + 1) ≡ length z = omega arith in
        rw (
          name_end,
          strstr-dot_some a (z ++ 0 ∷ r) ca,
          lt→ltb (length a + 1) (length a + 1 + length z) (omega arith),
          behind_dot,
          len,
        )

    -- The first dot ends the name.
    at_end :
        length z ≡ 0
        → get_file_suffix (some (a ++ b'.' ∷ (z ++ 0 ∷ r))) (some buf)
          ≡ (strncpy buf (cstring (codes "null")) 5 >>= λ b. done (pos 0, some b))
    unfolding get_file_suffix
    at_end e = rw (
      name_end,
      strstr-dot_some a (z ++ 0 ∷ r) ca,
      le→ltb (length a + 1) (length a + 1 + length z) (omega arith),
    )

-- What the array holds in the end, where it is long enough.
abbrev pub put : Bytes → Bytes → Bytes
put buf t = t ++ 0 ∷ drop (suc (length t)) buf

module _ (t r buf : Bytes) (text : IsText t) where
  Outcome : Exec Bytes → Type 0
  Outcome e = get_file_suffix (some (t ++ 0 ∷ r)) (some buf) ≡ (e >>= λ b. done (pos 0, some b))

  -- The code comes down to one write: of the suffix, or of "null".
  outcome :
      (o : Option Bytes)
      → after_dot t ≡ o
      → Outcome (strncpy buf (cstring (codes "null")) 5) × (or_null o ≡ codes "null")
        ⊎ Outcome (put_prefix buf (or_null o ++ 0 ∷ r) (length (or_null o))) × IsText (or_null o)
  unfolding or_null Outcome
  outcome none e = inl (no_dot buf t r text e, refl)
  outcome (some []) e =
      let (a, split, ca, hz) = after_dot-some t [] text e in
      inl (rw (split, append_assoc) (at_end buf a [] r ca hz refl), refl)
  outcome (some (c ∷ z)) e =
      let (a, split, ca, hz) = after_dot-some t (c ∷ z) text e in
      inr (rw (split, append_assoc) (at_dot buf a (c ∷ z) r ca hz (omega arith)), hz)

  -- For every name the result is 0, and the array holds the suffix, which is what follows the first
  -- dot or "null", with a byte 0 behind it and its other bytes as they were, if it has room.
  pub get_file_suffix-suffix_of :
      length (suffix_of t) < length buf
      → get_file_suffix (some (t ++ 0 ∷ r)) (some buf) ≡ done (pos 0, some (put buf (suffix_of t)))
  unfolding suffix_of Outcome
  get_file_suffix-suffix_of fits = elim (outcome (after_dot t) refl) [
    | inl (run, is_null) ↦
        let room : length (or_null (after_dot t)) < length buf = fits in
        run ∙ rw (strncpy-null buf (rw is_null at room), is_null)
    | inr (run, hz) ↦ run ∙ rw (put_text (or_null (after_dot t)) (0 ∷ r) buf hz fits)
  ]

  -- An array with no room for the suffix and its byte 0 is written past its end.
  pub get_file_suffix-overflow :
      length buf ≤ length (suffix_of t) → get_file_suffix (some (t ++ 0 ∷ r)) (some buf) ≡ fault
  unfolding suffix_of Outcome
  get_file_suffix-overflow over = elim (outcome (after_dot t) refl) [
    | inl (run, is_null) ↦
        let none_left : length buf ≤ length (or_null (after_dot t)) = over in
        run
        ∙ rw (strncpy-fault buf (cstring (codes "null")) 5 (omega (arith, rw is_null at none_left)))
    | inr (run, hz) ↦ run ∙ rw (put_text-fault (or_null (after_dot t)) (0 ∷ r) buf hz over)
  ]

-- For every name, `get_file_suffix` does what the description says: the result is 0 and the array holds
-- the suffix, which is what follows the first dot or "null", with a byte 0 behind it and its other
-- bytes as they were, if the array has room for both; any smaller array is written past its end.
pub get_file_suffix_bounds :
    (t r buf : Bytes)
    → IsText t
    → get_file_suffix (some (t ++ 0 ∷ r)) (some buf) ≡ (
        if ltb (length (suffix_of t)) (length buf)
        then done (pos 0, some (put buf (suffix_of t)))
        else fault)
get_file_suffix_bounds t r buf text = elim (Bool-cases (ltb (length (suffix_of t)) (length buf))) [
  | inl fits ↦
      rw fits
        (get_file_suffix-suffix_of t r buf text (ltb→lt (length (suffix_of t)) (length buf) fits))
  | inr over ↦
      rw over
        (get_file_suffix-overflow t r buf text (ltb→le (length (suffix_of t)) (length buf) over))
]

pub suffix_of-IsText : (t : Bytes) → IsText t → IsText (suffix_of t)
unfolding suffix_of or_null
suffix_of-IsText t h = by_suffix (after_dot t) refl
  where
    by_suffix : (o : Option Bytes) → after_dot t ≡ o → IsText (or_null o)
    by_suffix none e = omega arith
    by_suffix (some []) e = omega arith
    by_suffix (some (c ∷ z)) e = let (a, split, ca, hz) = after_dot-some t (c ∷ z) h e in hz
