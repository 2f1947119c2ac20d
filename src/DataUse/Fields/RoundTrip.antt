-- ===== src/DataUse/Fields/RoundTrip.antt =====
-- `get_value_by_redis` against the documented format of a value.
use distributed_storage.Base.{
  ℕ, zero, suc, ◌+◌, ◌≤◌, ◌<◌, ◌≡◌, ◌≢◌, refl, ap, ◌∙◌, [], ◌∷◌, ◌++◌, arith, length, ℤ, pos,
  negsuc, lt→ltb, ltb_ℤ, ◌&&◌, ◌||◌, sub-zero, true, false, some,
}
use distributed_storage.Clib.Exec.{done, fault}
use distributed_storage.Clib.Strings.{Bytes, zeros, padded, codes, tail_at, strstr_at}
use distributed_storage.FileInfo.{FileInfo, print, field, front, IsStored}
use distributed_storage.FileInfo.Separators.{IsClean, bar, fields_text, fields_text-append}
use distributed_storage.DataUse.Fields.{
  get_value_by_redis, select_field, create_time_field, copy_span, Scan, scan_fields, start,
}
use distributed_storage.DataUse.Fields.Loops.{scan_fields-begin}
use distributed_storage.DataUse.Fields.Reads.{
  file_id_field-text, middle_field-text, create_time-with_user, create_time-no_user, user-with_user,
  user-no_user, kind-with_user, kind-no_user, error_some,
}

-- The value as the reader meets it: the text, a byte 0, and whatever stands behind.
stored :
    (info : FileInfo) (r : Bytes)
    → print info ++ 0 ∷ r ≡ fields_text (front info) (info.kind ++ 0 ∷ r)
stored info r = fields_text-append (front info) info.kind (0 ∷ r)

module _ (info : FileInfo) (r : Bytes) (size max_len : ℕ) (ok : IsStored info) where
  Reads : ℕ → Type 0
  Reads k =
      select_field k (fields_text (front info) (info.kind ++ 0 ∷ r)) (zeros size) max_len
      ≡ done (padded size (field info k))

  reads_front :
      (k : ℕ)
      → 1 ≤ k
      → k ≤ 3
      → length (field info k) < size
      → length (field info k) ≤ max_len
      → Reads k
  unfolding select_field Reads
  reads_front zero lo hi fits short = absurd (omega arith)
  reads_front (suc zero) lo hi fits short =
      file_id_field-text size max_len info.file_id (omega arith) short _ ok.fields.0
  reads_front (suc (suc zero)) lo hi fits short =
      middle_field-text size max_len info.url (omega arith) short (info.file_id ∷ []) 0 _ refl
        (ok.fields.0, tt) ok.fields.1.0
  reads_front (suc (suc (suc zero))) lo hi fits short =
      middle_field-text size max_len info.filename (omega arith) short
        (info.file_id ∷ info.url ∷ []) 1 _ refl (ok.fields.0, (ok.fields.1.0, tt)) ok.fields.1.1.0
  reads_front (suc (suc (suc (suc k)))) lo hi fits short = absurd (omega arith)

module _ (id url name time kind r : Bytes) (size max_len : ℕ) where
  value : Bytes → Bytes
  value user = fields_text (id ∷ url ∷ name ∷ time ∷ user ∷ []) (kind ++ 0 ∷ r)

  reads_back :
      (user : Bytes)
      → IsClean id
      → IsClean url × (url ≢ [])
      → IsClean name × (name ≢ [])
      → IsClean time × (time ≢ [])
      → IsClean kind
      → IsClean user
      → (length time < size
          → length time ≤ max_len
          → select_field 4 (value user) (zeros size) max_len ≡ done (padded size time))
        × (10 ≤ size
            → length user < size
            → length user ≤ max_len
            → select_field 5 (value user) (zeros size) max_len ≡ done (padded size user))
        × (length kind < size
            → length kind ≤ max_len
            → select_field 6 (value user) (zeros size) max_len ≡ done (padded size kind))
  unfolding select_field value
  reads_back [] cid curl cname ctime ckind cuser = (
    λ fits short.
        create_time-no_user id url name time kind r size max_len cid curl cname ctime ckind
          (omega arith) short,
    λ ten fits short.
        rw sub-zero
          (user-no_user id url name time kind r size max_len cid curl cname ctime ckind ten),
    λ fits short. kind-no_user id url name time kind r size max_len cid curl cname ctime ckind fits,
  )
  reads_back (c ∷ user) cid curl cname ctime ckind cuser = (
    λ fits short.
        create_time-with_user id url name time kind r size max_len cid curl cname ctime ckind
          (c ∷ user) (cuser, λ e. cc) (omega arith) short,
    λ ten fits short.
        user-with_user id url name time kind r size max_len cid curl cname ctime ckind (c ∷ user)
          (cuser, λ e. cc) (omega arith) short,
    λ fits short.
        kind-with_user id url name time kind r size max_len cid curl cname ctime ckind (c ∷ user)
          (cuser, λ e. cc) (omega arith) short,
  )

module _ (info : FileInfo) (r : Bytes) (size max_len : ℕ) (ok : IsStored info)
    (ten : 10 ≤ size) where
  abbrev back :
      (length info.create_time < size
        → length info.create_time ≤ max_len
        → Reads info r size max_len ok 4)
      × (10 ≤ size
          → length info.user < size
          → length info.user ≤ max_len
          → Reads info r size max_len ok 5)
      × (length info.kind < size → length info.kind ≤ max_len → Reads info r size max_len ok 6)
  unfolding Reads value
  back =
      reads_back info.file_id info.url info.filename info.create_time info.kind r size max_len
        info.user ok.fields.0 (ok.fields.1.0, ok.url_ne_nil) (ok.fields.1.1.0, ok.filename_ne_nil)
        (ok.fields.1.1.1.0, ok.create_time_ne_nil) ok.kind_clean ok.fields.1.1.1.1.0

  reads :
      (k : ℕ)
      → 1 ≤ k
      → k ≤ 6
      → length (field info k) < size
      → length (field info k) ≤ max_len
      → Reads info r size max_len ok k
  unfolding Reads value
  reads (suc (suc (suc (suc zero)))) lo hi fits short = back.0 fits short
  reads (suc (suc (suc (suc (suc zero))))) lo hi fits short = back.1 ten fits short
  reads (suc (suc (suc (suc (suc (suc zero)))))) lo hi fits short = back.2 fits short
  reads (suc (suc (suc (suc (suc (suc (suc k))))))) lo hi fits short = absurd (omega arith)
  reads k lo hi fits short = reads_front info r size max_len ok k lo (omega arith) fits short

inside : (k : ℕ) → 1 ≤ k → k ≤ 6 → (ltb_ℤ (pos k) (pos 1) && ltb_ℤ (pos 6) (pos k)) ≡ false
inside k lo hi = ground arith

-- For a value in the documented format, whose url, file name and time are not empty and whose
-- fields hold no '|' and no byte 0, `get_value_by_redis` returns 0 and puts exactly the field of the
-- number 1 to 6 that is asked for into an array of at least 10 cleared bytes, whether the user is
-- there or empty, provided the field is shorter than the array and no longer than `max_len`.
pub get_value_by_redis-print :
    (info : FileInfo) (r : Bytes) (k size max_len : ℕ)
    → IsStored info
    → 10 ≤ size
    → 1 ≤ k
    → k ≤ 6
    → length (field info k) < size
    → length (field info k) ≤ max_len
    → get_value_by_redis (print info ++ 0 ∷ r) (pos k) (zeros size) max_len
      ≡ done (pos 0, padded size (field info k))
unfolding get_value_by_redis Reads
get_value_by_redis-print info r k size max_len ok ten lo hi fits short =
    rw (stored info r, inside k lo hi, reads info r size max_len ok ten k lo hi fits short)

-- A field number outside 1 to 6 is not refused: the result is 0, and the array is as it was.
pub get_value_by_redis_outside :
    (b : Bytes) (w : ℤ) (value : Bytes) (max_len : ℕ)
    → (ltb_ℤ w (pos 1) || ltb_ℤ (pos 6) w) ≡ true
    → get_value_by_redis b w value max_len ≡ done (pos 0, value)
unfolding get_value_by_redis select_field
get_value_by_redis_outside b (pos n) value max_len h = ground arith
get_value_by_redis_outside b (negsuc n) value max_len h = ground arith

create_time_gap :
    (b value : Bytes) (max_len p : ℕ) (t : Scan)
    → strstr_at b 0 (codes "||||") ≡ done (some p)
    → scan_fields b 3 0 3 start ≡ done t
    → p < t.begin
    → create_time_field b value max_len ≡ fault
unfolding create_time_field copy_span
create_time_gap b value max_len p t found run lt = rw (found, run, lt→ltb p t.begin lt)

-- Where the url is empty, reading the creation time leaves what C defines: "||||" stands in front of
-- the field, and the length of the copy is negative.
pub get_value_by_redis_empty_url :
    (info : FileInfo) (r value : Bytes) (max_len : ℕ)
    → IsClean info.file_id
    → IsClean info.filename
    → info.url ≡ []
    → get_value_by_redis (print info ++ 0 ∷ r) (pos 4) value max_len ≡ fault
unfolding get_value_by_redis select_field
get_value_by_redis_empty_url info r value max_len cid cname e =
    let y = fields_text (info.filename ∷ info.create_time ∷ info.user ∷ []) (info.kind ++ 0 ∷ r) in
    let z = fields_text (info.create_time ∷ info.user ∷ []) (info.kind ++ 0 ∷ r) in
    let b = info.file_id ++ bar (bar y) in
    let same : print info ++ 0 ∷ r ≡ b =
      stored info r ∙ ap (λ u. info.file_id ++ bar (u ++ bar y)) e in
    let (t, run, at) =
      scan_fields-begin b (info.file_id ∷ [] ∷ info.filename ∷ []) 0 3 start z
        (unfold tail_at in refl) (cid, (tt, (cname, tt))) in
    rw (
      same,
      create_time_gap b value max_len (length info.file_id + 0) t
          (error_some info.file_id [] y cid tt) run (omega arith),
    )
