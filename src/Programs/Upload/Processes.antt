-- ===== src/Programs/Upload/Processes.antt =====
-- The storage's programs, however they end, and what the server holds.
use distributed_storage.Base.{ℕ, [], ◌∷◌, Bool-cases, inl, inr, Option-cases}
use distributed_storage.Clib.Strings.{Bytes, codes, zeros, text_of}
use distributed_storage.RedisOp.Ends.{Ends, Ends-lift, Ends-lift_last, Ends-then}
use distributed_storage.RedisOp.Hiredis.{Hiredis}
use distributed_storage.Shelf.{ServerLaws}
use distributed_storage.Shelf.Apart.{Apart, Keeps-trans}
use distributed_storage.Shelf.Connects.{Keeps}
use distributed_storage.Usefull.Storage.{
  run_child, read_child, fdfs_parent, fdfs_forked, fdfs_client, get_url_forked, get_url, put_read,
  fdfs_client_conf, url_of,
}
use distributed_storage.Usefull.System.{System, Forked, refused, child, parent, reading, writing}
use distributed_storage.Usefull.TrimSpace.{trim_space}

module _ (H : Hiredis) (S : System H.World) (conn : H.Context) (laws : ServerLaws H conn)
    (apart : Apart H S conn laws) (start : H.World) where
  open H use {World}

  abbrev pub Kept : World → Type 0
  Kept u = Keeps H conn laws start u

  abbrev pub SameAs : {A : Type 0} → A → World → Type 0
  SameAs a u = Kept u

  abbrev pub and :
      {u v : World} → Keeps H conn laws start u → Keeps H conn laws u v → Keeps H conn laws start v
  and {u} {v} first second = Keeps-trans H S conn laws start u v first second

  run_child-SameAs :
      (program arg out : Bytes) (w : World) → Kept w → Ends SameAs (run_child S program arg out w)
  unfolding run_child
  run_child-SameAs program arg out w same = Ends-lift SameAs (text_of arg) _ w λ text _.
      let args = fdfs_client_conf ∷ text ∷ [] in
      let behind = S.dup (S.close reading w) in
      let kept =
        and (and (and same (apart.close reading w)) (apart.dup (S.close reading w)))
          (apart.exec program args behind) in
      elim (Option-cases (S.exec program args behind).0) [
        | inl back ↦ rw back kept
        | inr (status, runs) ↦ rw runs tt
      ]

  read_child-SameAs :
      (n : ℕ) (buf : Bytes) (w : World) → Kept w → Ends SameAs (read_child S n buf w)
  unfolding read_child
  read_child-SameAs n buf w same =
      let closed = S.close writing w in
      let kept =
        and (and (and same (apart.close writing w)) (apart.wait closed))
          (apart.read n (S.wait closed)) in
      Ends-lift_last SameAs (put_read buf (S.read n (S.wait closed)).0) (S.read n (S.wait closed)).1
        λ b e. kept

  fdfs_parent-SameAs : (id : Bytes) (w : World) → Kept w → Ends SameAs (fdfs_parent S id w)
  unfolding fdfs_parent
  fdfs_parent-SameAs id w same =
      Ends-then SameAs SameAs (read_child S 256 id) _ w (read_child-SameAs 256 id w same)
        λ buf u kept. Ends-lift SameAs (trim_space buf) _ u λ r e. kept

  fdfs_forked-SameAs :
      (f : Forked) (name id : Bytes) (w : World) → Kept w → Ends SameAs (fdfs_forked S f name id w)
  unfolding fdfs_forked
  fdfs_forked-SameAs refused name id w same = fdfs_parent-SameAs id w same
  fdfs_forked-SameAs parent name id w same = fdfs_parent-SameAs id w same
  fdfs_forked-SameAs child name id w same =
      run_child-SameAs (codes "fdfs_upload_file") name id w same

  pub fdfs_client-SameAs :
      (name id : Bytes) (w : World) → Kept w → Ends SameAs (fdfs_client S name id w)
  unfolding fdfs_client
  fdfs_client-SameAs name id w same =
      let piped = S.pipe w in
      let split = S.fork piped.1 in
      let kept = and (and same (apart.pipe w)) (apart.fork piped.1) in
      elim (Bool-cases piped.0) [
        | inl ok ↦ rw ok (fdfs_forked-SameAs split.0 name id split.1 kept)
        | inr no_pipe ↦ rw no_pipe tt
      ]

  get_url_forked-SameAs :
      (f : Forked) (id url : Bytes) (w : World) → Kept w → Ends SameAs (get_url_forked S f id url w)
  unfolding get_url_forked
  get_url_forked-SameAs refused id url w same = same
  get_url_forked-SameAs child id url w same =
      run_child-SameAs (codes "fdfs_file_info") id url w same
  get_url_forked-SameAs parent id url w same =
      Ends-then SameAs SameAs (read_child S 256 (zeros 256)) _ w
        (read_child-SameAs 256 (zeros 256) w same)
        λ buf u kept.
          Ends-lift SameAs (text_of buf) _ u
            λ _ _. Ends-lift SameAs (url_of buf id url) _ u λ r e. kept

  pub get_url-SameAs : (id url : Bytes) (w : World) → Kept w → Ends SameAs (get_url S id url w)
  unfolding get_url
  get_url-SameAs id url w same =
      let piped = S.pipe w in
      let split = S.fork piped.1 in
      let kept = and (and same (apart.pipe w)) (apart.fork piped.1) in
      elim (Bool-cases piped.0) [
        | inl ok ↦ rw ok (get_url_forked-SameAs split.0 id url split.1 kept)
        | inr no_pipe ↦ rw no_pipe (and same (apart.pipe w))
      ]
