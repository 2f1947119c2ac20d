-- ===== src/FileInfo/Separators.antt =====
-- Texts with the separator "||" behind each field, and where `strstr` finds "||" and "||||" in them.
use distributed_storage.Base.{
  ℕ, suc, ◌+◌, ◌≡◌, ◌≢◌, refl, ap, ◌∙◌, List, [], ◌∷◌, ◌++◌, append_assoc, arith, All, All-append,
  length, Option, none, some, ne→==, add-zero,
}
use distributed_storage.Clib.Exec.{Exec, done, exits, fault}
use distributed_storage.Clib.Strings.{
  Bytes, codes, IsText, shift, tail_at, starts_with, strstr, strstr_at,
}
use distributed_storage.Clib.Search.{
  strstr-append, strstr_at-tail, tail_at-add, tail_at-append_self,
}

-- Neither the byte 0 nor the separator's byte.
abbrev pub IsClean : Bytes → Type 0
IsClean = All (λ c. (c ≢ 0) × (c ≢ b'|'))

abbrev pub bar : Bytes → Bytes
bar s = b'|' ∷ b'|' ∷ s

abbrev pub fields_text : List Bytes → Bytes → Bytes
fields_text [] rest = rest
fields_text (f ∷ fs) rest = f ++ bar (fields_text fs rest)

-- The length of `fields_text fs []`.
abbrev pub offset : List Bytes → ℕ
offset [] = 0
offset (f ∷ fs) = length f + 2 + offset fs

pub IsClean-IsText : (f : Bytes) → IsClean f → IsText f
IsClean-IsText [] h = tt
IsClean-IsText (c ∷ f) h = (h.0.0, IsClean-IsText f h.1)

pub fields_text-IsText :
    (fs : List Bytes) (rest : Bytes) → All IsClean fs → IsText rest → IsText (fields_text fs rest)
fields_text-IsText [] rest h hr = hr
fields_text-IsText (f ∷ fs) rest h hr =
    All-append (λ c. c ≢ 0) f (bar (fields_text fs rest)) (IsClean-IsText f h.0)
      (omega arith, (omega arith, fields_text-IsText fs rest h.1 hr))

pub fields_text-append :
    (fs : List Bytes) (x y : Bytes) → fields_text fs x ++ y ≡ fields_text fs (x ++ y)
fields_text-append [] x y = refl
fields_text-append (f ∷ fs) x y = rw (append_assoc, fields_text-append fs x y)

-- Behind a field that begins at `p` the next one begins at `p + length f + 2`.
pub tail_at-bar :
    (b : Bytes) (p : ℕ) (f y : Bytes)
    → tail_at b p ≡ done (f ++ bar y)
    → tail_at b (p + length f + 2) ≡ done y
tail_at-bar b p f y h =
    tail_at-add b (p + length f) 2 (bar y)
      (tail_at-add b p (length f) _ h ∙ tail_at-append_self f (bar y))
    ∙ unfold tail_at in refl

pub tail_at-fields :
    (b : Bytes) (gs : List Bytes) (p : ℕ) (y : Bytes)
    → tail_at b p ≡ done (fields_text gs y)
    → tail_at b (p + offset gs) ≡ done y
tail_at-fields b [] p y h = rw add-zero h
tail_at-fields b (g ∷ gs) p y h =
    let e : p + (length g + 2 + offset gs) ≡ p + length g + 2 + offset gs = omega arith in
    rw e (tail_at-fields b gs (p + length g + 2) y (tail_at-bar b p g (fields_text gs y) h))

-- `strstr` finds the separator behind a clean field.
pub strstr-bar :
    (f y : Bytes) → IsClean f → strstr (f ++ bar y) (codes "||") ≡ done (some (length f))
strstr-bar f y h =
    strstr-append f (bar y) b'|' (codes "|") h
    ∙ unfold strstr starts_with in ap (λ n. done (some n)) (add-zero (length f))

pub strstr_at-bar :
    (b : Bytes) (p : ℕ) (f y : Bytes)
    → tail_at b p ≡ done (f ++ bar y)
    → IsClean f
    → strstr_at b p (codes "||") ≡ done (some (p + length f))
strstr_at-bar b p f y h c = rw (strstr_at-tail b p _ (codes "||") h, strstr-bar f y c)

shift_thrice :
    (n : ℕ) (e : Exec (Option ℕ)) → shift 1 (shift 1 (shift 1 (shift n e))) ≡ shift (suc n + 2) e
shift_thrice n (done none) = refl
shift_thrice n (done (some i)) = ap (λ k. done (some k)) (regroup i)
  where
    regroup : (i : ℕ) → 1 + (1 + (1 + (n + i))) ≡ suc n + 2 + i
    regroup i = omega arith
shift_thrice n (exits k) = refl
shift_thrice n fault = refl

-- Between a separator and a clean field there is no "||||".
skip_field :
    (f y : Bytes)
    → IsClean f
    → f ≢ []
    → strstr (bar (f ++ y)) (codes "||||") ≡ shift (length f + 2) (strstr y (codes "||||"))
unfolding strstr starts_with
skip_field [] y h ne = absurd (ne refl)
skip_field (c ∷ f) y h ne =
    rw (ne→== c b'|' h.0.1, ne→== c 0 h.0.0, strstr-append f y b'|' (codes "|||") h.1)
      (shift_thrice (length f) (strstr y (codes "||||")))

-- No "||||" where every field is there.
pub strstr-error_none :
    (gs : List Bytes) (x r : Bytes)
    → All (λ g. IsClean g × (g ≢ [])) gs
    → IsClean x
    → strstr (bar (fields_text gs (x ++ 0 ∷ r))) (codes "||||") ≡ done none
strstr-error_none [] [] r h hx = unfold strstr starts_with in refl
strstr-error_none [] (c ∷ x) r h hx =
    skip_field (c ∷ x) (0 ∷ r) hx (λ e. cc) ∙ unfold strstr starts_with in refl
strstr-error_none (g ∷ gs) x r h hx =
    rw (skip_field g _ h.0.0 h.0.1, strstr-error_none gs x r h.1 hx)

-- An empty field behind fields that are not: there the first "||||" begins.
pub strstr-error_some :
    (gs : List Bytes) (z : Bytes)
    → All (λ g. IsClean g × (g ≢ [])) gs
    → strstr (bar (fields_text gs (bar z))) (codes "||||") ≡ done (some (offset gs))
strstr-error_some [] z h = unfold strstr starts_with in refl
strstr-error_some (g ∷ gs) z h = rw (skip_field g _ h.0.0 h.0.1, strstr-error_some gs z h.1)
