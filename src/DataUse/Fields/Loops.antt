-- ===== src/DataUse/Fields/Loops.antt =====
-- The loops of `get_value_by_redis` over a text whose fields are separated by "||".
use distributed_storage.Base.{
  ℕ, suc, ◌+◌, ◌-◌, ◌≤◌, ◌≡◌, refl, ◌∙◌, false, List, [], ◌∷◌, ◌++◌, arith, All, length, ◌==◌,
  if◌then◌else◌, le→ltb,
}
use distributed_storage.Clib.Exec.{done}
use distributed_storage.Clib.Strings.{Bytes, IsText, tail_at, zeros, padded}
use distributed_storage.Clib.Copy.{strncpy-zeros}
use distributed_storage.DataUse.Fields.{Scan, scan_fields, copy_span}
use distributed_storage.FileInfo.Separators.{
  IsClean, bar, fields_text, offset, strstr_at-bar, tail_at-bar,
}

-- The variables behind a round that passes the field `f`.
abbrev pub passed : ℕ → ℕ → Scan → Bytes → Scan
passed i mark s f = record {
  begin = s.begin + length f + 2;
  end = s.begin + length f;
  first = if i == mark then s.begin + length f + 2 else s.first;
}

pub scan_fields_step :
    (b : Bytes) (rounds i mark : ℕ) (s : Scan) (f y : Bytes)
    → tail_at b s.begin ≡ done (f ++ bar y)
    → IsClean f
    → scan_fields b (suc rounds) i mark s ≡ scan_fields b rounds (i + 1) mark (passed i mark s f)
unfolding scan_fields
scan_fields_step b rounds i mark s f y h c = rw (strstr_at-bar b s.begin f y h c)

-- The loop with no mark that matters: `begin` is behind the fields.
pub scan_fields-begin :
    (b : Bytes) (gs : List Bytes) (i mark : ℕ) (s : Scan) (y : Bytes)
    → tail_at b s.begin ≡ done (fields_text gs y)
    → All IsClean gs
    → (t : Scan) × (scan_fields b (length gs) i mark s ≡ done t) × (t.begin ≡ s.begin + offset gs)
scan_fields-begin b [] i mark s y h c = (s, unfold scan_fields in refl, omega arith)
scan_fields-begin b (g ∷ gs) i mark s y h c =
    let z = fields_text gs y in
    let (t, run, at) =
      scan_fields-begin b gs (i + 1) mark (passed i mark s g) y (tail_at-bar b s.begin g z h) c.1 in
    (t, scan_fields_step b (length gs) i mark s g z h c.0 ∙ run, omega arith)

-- The loop over the fields `gs` and `f` that marks the end of `gs`.
pub scan_fields-mark :
    (b : Bytes) (gs : List Bytes) (i mark : ℕ) (s : Scan) (f y : Bytes)
    → tail_at b s.begin ≡ done (fields_text gs (f ++ bar y))
    → All IsClean gs
    → IsClean f
    → mark + 1 ≡ i + length gs
    → (length gs ≡ 0 → s.first ≡ s.begin)
    → (t : Scan) × (scan_fields b (suc (length gs)) i mark s ≡ done t)
      × (t.first ≡ s.begin + offset gs)
      × (t.end ≡ s.begin + offset gs + length f)
scan_fields-mark b [] i mark s f y h c cf m start =
    let late : (i == mark) ≡ false = ground arith in
    (
      passed i mark s f,
      scan_fields_step b 0 i mark s f y h cf ∙ unfold scan_fields in refl,
      rw late (omega (arith, start refl)),
      omega arith,
    )
scan_fields-mark b (g ∷ gs) i mark s f y h c cf m start =
    let z = fields_text gs (f ++ bar y) in
    let (t, run, first, end) =
      scan_fields-mark b gs (i + 1) mark (passed i mark s g) f y (tail_at-bar b s.begin g z h) c.1
        cf (omega arith) (λ e. ground arith) in
    (t, scan_fields_step b (suc (length gs)) i mark s g z h c.0 ∙ run, omega arith, omega arith)

-- A span that holds a whole field is copied behind the cleared bytes of the array.
pub copy_span-field :
    (b : Bytes) (from end size max_len : ℕ) (f y : Bytes)
    → tail_at b from ≡ done (f ++ y)
    → end ≡ from + length f
    → IsText f
    → length f ≤ size
    → length f ≤ max_len
    → copy_span b from end (zeros size) max_len ≡ done (padded size f)
unfolding copy_span
copy_span-field b from end size max_len f y h e c le lem =
    let len : end - from ≡ length f = omega arith in
    rw (le→ltb end from (omega arith), h, len, le→ltb max_len (length f) lem)
      (strncpy-zeros size f y c le)
