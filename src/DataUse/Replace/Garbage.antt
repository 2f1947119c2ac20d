-- ===== src/DataUse/Replace/Garbage.antt =====
-- `str_replace` reads the block that it allocates before it has put a byte 0 there.
use distributed_storage.Base.{
  ℕ, zero, suc, ◌≡◌, ◌≢◌, refl, ◌∙◌, sym, some, [], ◌∷◌, ◌++◌, length, arith, ne→==, drop,
  All-append, length-append, append_assoc, sub-zero,
}
use distributed_storage.Clib.Exec.{done, fault}
use distributed_storage.Clib.Strings.{
  Bytes, IsText, cstring, strncpy, tail_at, strlen, strstr, strstr_at, strcat,
}
use distributed_storage.Clib.Copy.{strncpy-text}
use distributed_storage.Clib.First.{Absent, strstr-first, starts_with-append}
use distributed_storage.Clib.Search.{strlen-text, strstr_at-tail, shift-zero}
use distributed_storage.DataUse.Replace.{replace_loop, str_replace}

-- `strcat` onto an array that holds no byte 0.
strcat-IsText : (dst src : Bytes) → IsText dst → strcat dst src ≡ fault
unfolding strcat
strcat-IsText [] src h = refl
strcat-IsText (d ∷ dst) src h = rw (ne→== d 0 h.0, strcat-IsText dst src h.1)

drop-IsText : (n : ℕ) (b : Bytes) → IsText b → IsText (drop n b)
drop-IsText zero b h = h
drop-IsText (suc n) [] h = tt
drop-IsText (suc n) (x ∷ b) h = drop-IsText n b h.1

module _ (a : Bytes) (k : ℕ) (ks s r replace block : Bytes) (text : IsText (a ++ (k ∷ (ks ++ s))))
    (ta : IsText a) (garbage : IsText block) (len : length block ≡ length (a ++ (k ∷ (ks ++ s))))
    (first : Absent (k ∷ ks) (a ++ (k ∷ (ks ++ (s ++ 0 ∷ r)))) (length a)) where
  abbrev pub src : Bytes
  src = a ++ (k ∷ (ks ++ (s ++ 0 ∷ r)))

  src_len : strlen src ≡ done (length (a ++ (k ∷ (ks ++ s))))
  src_len =
      let same : (a ++ (k ∷ (ks ++ s))) ++ 0 ∷ r ≡ src = simp append_assoc in
      rw (sym same) (strlen-text (a ++ (k ∷ (ks ++ s))) r text)

  found : strstr_at src 0 (k ∷ ks) ≡ done (some (length a))
  found =
      strstr_at-tail src 0 src (k ∷ ks) (unfold tail_at in refl)
      ∙ shift-zero (strstr src (k ∷ ks))
      ∙ strstr-first a k (ks ++ (s ++ 0 ∷ r)) (k ∷ ks) ta first
          (starts_with-append (k ∷ ks) (s ++ 0 ∷ r))

  copied : strncpy block src (length a) ≡ done (a ++ drop (length a) block)
  copied =
      strncpy-text a (k ∷ (ks ++ (s ++ 0 ∷ r))) block ta
        (omega (arith, length-append a (k ∷ (ks ++ s))))

  no_end : strcat (a ++ drop (length a) block) (cstring replace) ≡ fault
  no_end =
      strcat-IsText (a ++ drop (length a) block) (cstring replace) (
        All-append (λ c. c ≢ 0) a (drop (length a) block) ta (drop-IsText (length a) block garbage))

  -- Where the key occurs and the block holds no byte 0, as `malloc` may give it, the first `strcat`
  -- finds no end of a text in the block: a read past its end.
  pub str_replace_garbage :
      str_replace (some src) (some (k ∷ ks)) (some replace) (some block) ≡ fault
  unfolding str_replace replace_loop tail_at
  str_replace_garbage = rw (src_len, found, sub-zero, copied, no_end)
