-- ===== src/Programs/Upload/Sizes.antt =====
-- The sizes of the arrays that `upload_file`, `fdfs_client` and `get_url` write.
use distributed_storage.Base.{
  ℕ, ◌+◌, ◌-◌, ◌≡◌, refl, ◌∙◌, ◌∷◌, [], arith, ℤ, length, drop, length-append, length-drop, Bool,
  Bool-cases, inl, inr, leb, leb→le, ◌==◌, if◌then◌else◌, Option, Option-cases, ltb,
}
use distributed_storage.Clib.After.{After, After-bind, After-done, After-intro}
use distributed_storage.Clib.Exec.{done, fault, nonnull}
use distributed_storage.Clib.Lengths.{length-memset, length-put_prefix, length-strcat}
use distributed_storage.Clib.Strings.{
  Bytes, codes, cstring, zeros, memset, put_prefix, strlen, strcat, strstr, tail_at, text_of,
  strstr_at,
}
use distributed_storage.RedisOp.Ends.{Ends, Ends-bind, Ends-lift, Ends-lift_last, Ends-done}
use distributed_storage.Usefull.Storage.{
  address_key, put_read, url_of, read_child, run_child, fdfs_parent, fdfs_forked, fdfs_client,
  get_url_forked, get_url, fdfs_client_conf,
}
use distributed_storage.Usefull.System.{System, Forked, refused, child, parent, reading, writing}
use distributed_storage.Usefull.TrimSpace.{trim_space, skip_space, retreat, may_copy}
use distributed_storage.Usefull.Upload.{extract_name, extract_data, upload_file, crlf_loop}

abbrev SizeIs : ℕ → Bytes → Type 0
SizeIs n b = length b ≡ n

abbrev SecondIs : ℕ → ℤ × Bytes → Type 0
SecondIs n r = length r.1 ≡ n

abbrev ArrayIs : ℕ → ℤ × Bytes × Option (Bytes × Bytes) → Type 0
ArrayIs n r = length r.1 ≡ n

trim_space-After : (src : Bytes) → After (SecondIs (length src)) (trim_space src)
unfolding trim_space
trim_space-After src = After-bind (SecondIs (length src)) (strlen src) _ λ n _.
    After-bind (SecondIs (length src)) (skip_space src) _ λ begin _.
      After-bind (SecondIs (length src)) (if n == 0 then fault else retreat src begin (n - 1)) _
        λ end _. After-bind (SecondIs (length src)) (tail_at src begin) _ λ from _.
          elim (Bool-cases (may_copy begin (end + 1 - begin))) [
            | inl free ↦ rw free (
                After-bind (SecondIs (length src)) (put_prefix src from (end + 1 - begin)) _
                  λ str e. length-put_prefix src from str (end + 1 - begin) e)
            | inr shared ↦ rw shared tt
          ]

put_read-After : (buf out : Bytes) → After (SizeIs (length buf)) (put_read buf out)
unfolding put_read
put_read-After buf out = elim (Bool-cases (leb (length out) (length buf))) [
  | inl fits ↦ rw fits (
      omega (
        arith,
        length-append out (drop (length out) buf),
        length-drop (length out) buf,
        leb→le (length out) (length buf) fits,
      ))
  | inr over ↦ rw over tt
]

extract_name-After :
    (src filename : Bytes) → After (SizeIs (length filename)) (extract_name src filename)
unfolding extract_name
extract_name-After src filename =
    After-bind (SizeIs (length filename)) (strstr_at src 0 (codes "filename=")) _ λ found _.
      After-bind (SizeIs (length filename)) (nonnull found) _ λ at _.
        After-bind (SizeIs (length filename)) (crlf_loop 2 src 0 0) _ λ s _.
          After-bind (SizeIs (length filename))
            (if ltb s (at + 10 + 1) then fault else done (s - 1 - (at + 10))) _
            λ name_len _.
              After-bind (SizeIs (length filename)) (memset filename (name_len + 1)) _ λ cleared e₁.
                After-bind (SizeIs (length filename)) (tail_at src (at + 10)) _ λ from _.
                  After-intro (SizeIs (length filename)) (put_prefix cleared from name_len) λ b e₂.
                    length-put_prefix cleared from b name_len e₂
                    ∙ length-memset filename cleared (name_len + 1) e₁

upload_file-After :
    (src : Bytes) (len : ℕ) (filename : Bytes) (can_open : Bool)
    → After (ArrayIs (length filename)) (upload_file src len filename can_open)
unfolding upload_file
upload_file-After src len filename can_open =
    After-bind (ArrayIs (length filename)) (extract_name src filename) _ λ name e.
      After-bind (ArrayIs (length filename)) (extract_data src len can_open) _ λ bytes _.
        After-bind (ArrayIs (length filename)) (text_of name) _ λ path _.
          let size : length name ≡ length filename =
            After-done (SizeIs (length filename)) (extract_name src filename) name
              (extract_name-After src filename) e in
          elim (Bool-cases can_open) [ inl opened ↦ rw opened size | inr failed ↦ rw failed size ]

url_of-After :
    (fdfs_buf file_id url : Bytes) → After (SizeIs (length url)) (url_of fdfs_buf file_id url)
unfolding url_of
url_of-After fdfs_buf file_id url =
    After-bind (SizeIs (length url)) (strstr fdfs_buf address_key) _ λ found _.
      After-bind (SizeIs (length url)) (nonnull found) _ λ at _.
        After-bind (SizeIs (length url)) (tail_at fdfs_buf (at + length address_key)) _ λ begin _.
          After-bind (SizeIs (length url)) (strstr begin (codes "\n")) _ λ found' _.
            After-bind (SizeIs (length url)) (nonnull found') _ λ ip_len _.
              After-bind (SizeIs (length url)) (put_prefix (zeros 16) begin ip_len) _ λ ip_buf _.
                After-bind (SizeIs (length url)) (trim_space ip_buf) _ λ ip _.
                  After-bind (SizeIs (length url)) (strcat url (cstring (codes "http://"))) _
                    λ u₁ e₁. After-bind (SizeIs (length url)) (strcat u₁ ip.1) _ λ u₂ e₂.
                      After-bind (SizeIs (length url)) (strcat u₂ (cstring (codes "/"))) _ λ u₃ e₃.
                        After-intro (SizeIs (length url)) (strcat u₃ file_id) λ b e₄.
                          length-strcat u₃ file_id b e₄
                          ∙ length-strcat u₂ (cstring (codes "/")) u₃ e₃
                          ∙ length-strcat u₁ ip.1 u₂ e₂
                          ∙ length-strcat url (cstring (codes "http://")) u₁ e₁

pub length-upload_file :
    (src : Bytes) (len : ℕ) (filename : Bytes) (can_open : Bool)
    (r : ℤ × Bytes × Option (Bytes × Bytes))
    → upload_file src len filename can_open ≡ done r
    → length r.1 ≡ length filename
length-upload_file src len filename can_open r e =
    After-done (ArrayIs (length filename)) (upload_file src len filename can_open) r
      (upload_file-After src len filename can_open) e

module _ {W : Type 0} (S : System W) where
  abbrev pub ArraySize : ℕ → ℤ × Bytes → W → Type 0
  ArraySize n r w = length r.1 ≡ n

  abbrev BufSize : ℕ → Bytes → W → Type 0
  BufSize n b w = length b ≡ n

  run_child-Ends :
      (program arg out : Bytes) (w : W)
      → Ends (ArraySize (length out)) (run_child S program arg out w)
  unfolding run_child
  run_child-Ends program arg out w = Ends-lift (ArraySize (length out)) (text_of arg) _ w λ text _.
      elim (Option-cases
        (S.exec program (fdfs_client_conf ∷ text ∷ []) (S.dup (S.close reading w))).0) [
          | inl back ↦ rw back refl
          | inr (status, runs) ↦ rw runs tt
        ]

  read_child-Ends :
      (n : ℕ) (buf : Bytes) (w : W) → Ends (BufSize (length buf)) (read_child S n buf w)
  unfolding read_child
  read_child-Ends n buf w =
      let (out, u) = S.read n (S.wait (S.close writing w)) in
      Ends-lift_last (BufSize (length buf)) (put_read buf out) u
        λ b e. After-done (SizeIs (length buf)) (put_read buf out) b (put_read-After buf out) e

  fdfs_parent-Ends : (id : Bytes) (w : W) → Ends (ArraySize (length id)) (fdfs_parent S id w)
  unfolding fdfs_parent
  fdfs_parent-Ends id w = Ends-bind (ArraySize (length id)) (read_child S 256 id) _ w λ buf u e.
      Ends-lift (ArraySize (length id)) (trim_space buf) _ u λ r e'.
        After-done (SecondIs (length buf)) (trim_space buf) r (trim_space-After buf) e'
        ∙ Ends-done (BufSize (length id)) (read_child S 256 id w) buf u (read_child-Ends 256 id w) e

  fdfs_forked-Ends :
      (f : Forked) (name id : Bytes) (w : W)
      → Ends (ArraySize (length id)) (fdfs_forked S f name id w)
  unfolding fdfs_forked
  fdfs_forked-Ends refused name id w = fdfs_parent-Ends id w
  fdfs_forked-Ends parent name id w = fdfs_parent-Ends id w
  fdfs_forked-Ends child name id w = run_child-Ends (codes "fdfs_upload_file") name id w

  pub fdfs_client-Ends :
      (name id : Bytes) (w : W) → Ends (ArraySize (length id)) (fdfs_client S name id w)
  unfolding fdfs_client
  fdfs_client-Ends name id w = elim (Bool-cases (S.pipe w).0) [
    | inl ok ↦ let run = S.fork (S.pipe w).1 in rw ok (fdfs_forked-Ends run.0 name id run.1)
    | inr no_pipe ↦ rw no_pipe tt
  ]

  get_url_forked-Ends :
      (f : Forked) (id url : Bytes) (w : W)
      → Ends (ArraySize (length url)) (get_url_forked S f id url w)
  unfolding get_url_forked
  get_url_forked-Ends refused id url w = refl
  get_url_forked-Ends child id url w = run_child-Ends (codes "fdfs_file_info") id url w
  get_url_forked-Ends parent id url w =
      Ends-bind (ArraySize (length url)) (read_child S 256 (zeros 256)) _ w λ buf u _.
        Ends-lift (ArraySize (length url)) (text_of buf) _ u λ _ _.
          Ends-lift (ArraySize (length url)) (url_of buf id url) _ u λ r e.
            After-done (SizeIs (length url)) (url_of buf id url) r (url_of-After buf id url) e

  pub get_url-Ends : (id url : Bytes) (w : W) → Ends (ArraySize (length url)) (get_url S id url w)
  unfolding get_url
  get_url-Ends id url w = elim (Bool-cases (S.pipe w).0) [
    | inl ok ↦ let run = S.fork (S.pipe w).1 in rw ok (get_url_forked-Ends run.0 id url run.1)
    | inr no_pipe ↦ rw no_pipe refl
  ]
