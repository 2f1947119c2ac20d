-- ===== src/DataUse/Fields/Reads.antt =====
-- What each case of the `switch` leaves in a cleared array, for a value in the documented format.
use distributed_storage.Base.{
  ℕ, suc, ◌+◌, ◌≤◌, ◌<◌, ◌≡◌, ◌≢◌, refl, ap, sym, List, [], ◌∷◌, ◌++◌, arith, All, length, zero-add,
  some, none, le→ltb,
}
use distributed_storage.Clib.Exec.{done}
use distributed_storage.Clib.Strings.{Bytes, tail_at, strstr_at, zeros, padded, codes}
use distributed_storage.Clib.Copy.{memset-zeros, strcpy-zeros, strncpy-zeros}
use distributed_storage.Clib.Search.{strlen-text, strstr_at-tail, strstr-append}
use distributed_storage.DataUse.Fields.{
  start, file_id_field, middle_field, create_time_field, user_field, kind_field,
}
use distributed_storage.DataUse.Fields.Loops.{scan_fields-begin, scan_fields-mark, copy_span-field}
use distributed_storage.FileInfo.Separators.{
  IsClean, bar, fields_text, offset, strstr_at-bar, tail_at-fields, tail_at-bar, IsClean-IsText,
  strstr-error_none, strstr-error_some,
}

abbrev IsPresent : Bytes → Type 0
IsPresent g = IsClean g × (g ≢ [])

-- The array `b` begins with the text of the fields, and `f` is one that fits.
module _ (size max_len : ℕ) (f : Bytes) (fits : length f ≤ size) (short : length f ≤ max_len) where
  pub middle_field-text :
      (gs : List Bytes) (n : ℕ) (y : Bytes)
      → length gs ≡ suc n
      → All IsClean gs
      → IsClean f
      → middle_field n (fields_text gs (f ++ bar y)) (zeros size) max_len ≡ done (padded size f)
  unfolding middle_field
  middle_field-text gs n y len c cf =
      let b = fields_text gs (f ++ bar y) in
      let (t, run, first, end) =
        scan_fields-mark b gs 0 n start f y (unfold tail_at in refl) c cf (omega arith)
          (λ e. refl) in
      let at : t.first ≡ offset gs = omega arith in
      rw (sym len, run)
        (copy_span-field b t.first t.end size max_len f (bar y)
          (rw at (rw zero-add at (tail_at-fields b gs 0 (f ++ bar y) (unfold tail_at in refl))))
          (omega arith) (IsClean-IsText f cf) fits short)

  pub file_id_field-text :
      (y : Bytes)
      → IsClean f
      → file_id_field (f ++ bar y) (zeros size) max_len ≡ done (padded size f)
  unfolding file_id_field
  file_id_field-text y cf = rw (strstr_at-bar (f ++ bar y) 0 f y (unfold tail_at in refl) cf) (
      copy_span-field (f ++ bar y) 0 (0 + length f) size max_len f (bar y) (unfold tail_at in refl)
        refl (IsClean-IsText f cf) fits short)

-- Where "||||" is found in a text of fields: nowhere, or at the one empty field.
pub error_none :
    (g : Bytes) (gs : List Bytes) (x r : Bytes)
    → IsClean g
    → All IsPresent gs
    → IsClean x
    → strstr_at (fields_text (g ∷ gs) (x ++ 0 ∷ r)) 0 (codes "||||") ≡ done none
error_none g gs x r cg cgs cx =
    let y = fields_text gs (x ++ 0 ∷ r) in
    rw (
      strstr_at-tail (g ++ bar y) 0 (g ++ bar y) (codes "||||") (unfold tail_at in refl),
      strstr-append g (bar y) b'|' (codes "|||") cg,
      strstr-error_none gs x r cgs cx,
    )

pub error_some :
    (g : Bytes) (gs : List Bytes) (z : Bytes)
    → IsClean g
    → All IsPresent gs
    → strstr_at (fields_text (g ∷ gs) (bar z)) 0 (codes "||||") ≡ done (some (length g + offset gs))
error_some g gs z cg cgs =
    let y = fields_text gs (bar z) in
    rw
      (
        strstr_at-tail (g ++ bar y) 0 (g ++ bar y) (codes "||||") (unfold tail_at in refl),
        strstr-append g (bar y) b'|' (codes "|||") cg,
        strstr-error_some gs z cgs,
      )
      (ap (λ n. done (some n)) (zero-add _))

-- The two forms of a value: with a user, and with none.
module _ (id url name time kind r : Bytes) (size max_len : ℕ) (cid : IsClean id)
    (curl : IsPresent url) (cname : IsPresent name) (ctime : IsPresent time)
    (ckind : IsClean kind) where
  module _ (user : Bytes) (cuser : IsPresent user) where
    abbrev pub with_user : Bytes
    with_user = fields_text (id ∷ url ∷ name ∷ time ∷ user ∷ []) (kind ++ 0 ∷ r)

    no_error : strstr_at with_user 0 (codes "||||") ≡ done none
    no_error =
        error_none id (url ∷ name ∷ time ∷ user ∷ []) kind r cid
          (curl, (cname, (ctime, (cuser, tt)))) ckind

    pub create_time-with_user :
        length time ≤ size
        → length time ≤ max_len
        → create_time_field with_user (zeros size) max_len ≡ done (padded size time)
    unfolding create_time_field
    create_time-with_user fits short = rw no_error (
        middle_field-text size max_len time fits short (id ∷ url ∷ name ∷ []) 2
          (user ++ bar (kind ++ 0 ∷ r)) refl (cid, (curl.0, (cname.0, tt))) ctime.0)

    pub user-with_user :
        length user ≤ size
        → length user ≤ max_len
        → user_field with_user (zeros size) max_len ≡ done (padded size user)
    unfolding user_field
    user-with_user fits short = rw no_error (
        middle_field-text size max_len user fits short (id ∷ url ∷ name ∷ time ∷ []) 3
          (kind ++ 0 ∷ r) refl (cid, (curl.0, (cname.0, (ctime.0, tt)))) cuser.0)

    pub kind-with_user :
        length kind ≤ size
        → length kind ≤ max_len
        → kind_field with_user (zeros size) max_len ≡ done (padded size kind)
    unfolding kind_field
    kind-with_user fits short =
        let gs = id ∷ url ∷ name ∷ time ∷ user ∷ [] in
        let (t, run, at) =
          scan_fields-begin with_user gs 0 5 start (kind ++ 0 ∷ r) (unfold tail_at in refl)
            (cid, (curl.0, (cname.0, (ctime.0, (cuser.0, tt))))) in
        let src = tail_at-fields with_user gs 0 (kind ++ 0 ∷ r) (unfold tail_at in refl) in
        rw
          (
            no_error,
            run,
            at,
            src,
            strlen-text kind r (IsClean-IsText kind ckind),
            le→ltb max_len (length kind) short,
          )
          (strncpy-zeros size kind (0 ∷ r) (IsClean-IsText kind ckind) fits)

  abbrev pub no_user : Bytes
  no_user = fields_text (id ∷ url ∷ name ∷ time ∷ []) (bar (kind ++ 0 ∷ r))

  abbrev gap : ℕ
  gap = length id + offset (url ∷ name ∷ time ∷ [])

  error_at : strstr_at no_user 0 (codes "||||") ≡ done (some gap)
  error_at = error_some id (url ∷ name ∷ time ∷ []) (kind ++ 0 ∷ r) cid (curl, (cname, (ctime, tt)))

  pub create_time-no_user :
      length time ≤ size
      → length time ≤ max_len
      → create_time_field no_user (zeros size) max_len ≡ done (padded size time)
  unfolding create_time_field
  create_time-no_user fits short =
      let gs = id ∷ url ∷ name ∷ [] in
      let y = time ++ bar (bar (kind ++ 0 ∷ r)) in
      let (t, run, at) =
        scan_fields-begin no_user gs 0 3 start y (unfold tail_at in refl)
          (cid, (curl.0, (cname.0, tt))) in
      rw (error_at, run)
        (copy_span-field no_user t.begin gap size max_len time (bar (bar (kind ++ 0 ∷ r)))
          (rw at (tail_at-fields no_user gs 0 y (unfold tail_at in refl))) (omega arith)
          (IsClean-IsText time ctime.0) fits short)

  pub user-no_user : 10 ≤ size → user_field no_user (zeros size) max_len ≡ done (zeros size)
  unfolding user_field
  user-no_user fits = rw error_at (memset-zeros size 10 fits)

  pub kind-no_user :
      length kind < size → kind_field no_user (zeros size) max_len ≡ done (padded size kind)
  unfolding kind_field
  kind-no_user fits =
      let gs = id ∷ url ∷ name ∷ time ∷ [] in
      let y = kind ++ 0 ∷ r in
      let p : gap + 4 ≡ offset gs + 0 + 2 = omega arith in
      let behind = tail_at-fields no_user gs 0 (bar y) (unfold tail_at in refl) in
      let src = tail_at-bar no_user (offset gs) [] y (rw zero-add at behind) in
      rw (error_at, p, src) (strcpy-zeros size kind r (IsClean-IsText kind ckind) fits)
