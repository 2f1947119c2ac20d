-- ===== src/Usefull/Storage/Descriptors.antt =====
-- The ends of pipes that stay open.
use distributed_storage.Base.{
  ◌+◌, ◌-◌, ◌≡◌, ap, ℕ, true, pos, arith, Bool-cases, inl, inr, Option-cases, [], ◌∷◌,
}
use distributed_storage.Clib.Exec.{Exec, done, >>=-eq-done, Exec-cases}
use distributed_storage.Clib.Strings.{Bytes, codes, text_of, zeros}
use distributed_storage.RedisOp.Action as Action
use distributed_storage.Usefull.Storage.{
  fdfs_client, fdfs_forked, fdfs_parent, get_url, get_url_forked, run_child, read_child, put_read,
  url_of, fdfs_client_conf,
}
use distributed_storage.Usefull.System.{System, Forked, refused, child, parent, reading, writing}
use distributed_storage.Usefull.TrimSpace.{trim_space}

-- The number of ends of pipes that are open: `pipe` opens two where it succeeds, `close` closes
-- one.
pub record DescriptorLaws {W : Type 0} (S : System W) : Type 0 where
  pub open_ends : W → ℕ
  pub pipe_two : (w : W) → (S.pipe w).0 ≡ true → open_ends (S.pipe w).1 ≡ open_ends w + 2
  pub fork_same : (w : W) → open_ends (S.fork w).1 ≡ open_ends w
  pub close_one : (w : W) → open_ends (S.close writing w) ≡ open_ends w - 1
  pub wait_same : (w : W) → open_ends (S.wait w) ≡ open_ends w
  pub read_same : (n : ℕ) (w : W) → open_ends (S.read n w).1 ≡ open_ends w

same_pair :
    {A W : Type 0} {a b : A} {u v : W}
    → ◌≡◌ {A = Exec (A × W)} (done (a, u)) (done (b, v))
    → (a ≡ b) × (u ≡ v)
same_pair e = (cc, cc)

module _ {W : Type 0} (S : System W) (laws : DescriptorLaws S) where
  open laws use {open_ends}

  read_child-open_ends :
      (n : ℕ) (buf buf' : Bytes) (w w' : W)
      → read_child S n buf w ≡ done (buf', w')
      → open_ends w' ≡ open_ends w - 1
  unfolding read_child
  read_child-open_ends n buf buf' w w' h =
      let u = S.wait (S.close writing w) in
      let (b, _, e) = >>=-eq-done (put_read buf (S.read n u).0) (λ b. done (b, (S.read n u).1)) h in
      omega (
        arith,
        ap open_ends (same_pair e).1,
        laws.read_same n u,
        laws.wait_same (S.close writing w),
        laws.close_one w,
      )

  child-pos_zero :
      (program arg out out' : Bytes) (w w' : W)
      → ¬ (run_child S program arg out w ≡ done ((pos 0, out'), w'))
  unfolding run_child
  child-pos_zero program arg out out' w w' h = elim (Exec-cases (text_of arg)) [
    | inl (t, e) ↦
        elim (Option-cases
          (S.exec program (fdfs_client_conf ∷ t ∷ []) (S.dup (S.close reading w))).0) [
            | inl gone ↦ cc (rw (e, gone) at h)
            | inr (n, runs) ↦ cc (rw (e, runs) at h)
          ]
    | inr (inl (n, e)) ↦ cc (rw e at h)
    | inr (inr e) ↦ cc (rw e at h)
  ]

  parent-open_ends :
      (id id' : Bytes) (w w' : W)
      → fdfs_parent S id w ≡ done ((pos 0, id'), w')
      → open_ends w' ≡ open_ends w - 1
  unfolding fdfs_parent
  parent-open_ends id id' w w' h =
      let (b, u, run, h') =
        Action.>>=-eq-done (read_child S 256 id)
          (λ b. Action.◌>>=◌ (Action.lift (trim_space b)) λ t. Action.return (pos 0, t.1)) h in
      let (t, _, e) = Action.lift-eq-done (trim_space b) (λ t. Action.return (pos 0, t.1)) h' in
      omega (arith, ap open_ends (same_pair e).1, read_child-open_ends 256 id b w u run)

  fdfs_forked-open_ends :
      (f : Forked) (name id id' : Bytes) (w w' : W)
      → fdfs_forked S f name id w ≡ done ((pos 0, id'), w')
      → open_ends w' ≡ open_ends w - 1
  unfolding fdfs_forked
  fdfs_forked-open_ends refused name id id' w w' h = parent-open_ends id id' w w' h
  fdfs_forked-open_ends parent name id id' w w' h = parent-open_ends id id' w w' h
  fdfs_forked-open_ends child name id id' w w' h =
      absurd (child-pos_zero (codes "fdfs_upload_file") name id id' w w' h)

  fdfs_client-open_ends :
      (name id id' : Bytes) (w w' : W)
      → fdfs_client S name id w ≡ done ((pos 0, id'), w')
      → open_ends w' ≡ open_ends w + 1
  unfolding fdfs_client
  fdfs_client-open_ends name id id' w w' h = elim (Bool-cases (S.pipe w).0) [
    | inl ok ↦
        let run = S.fork (S.pipe w).1 in
        omega (
          arith,
          fdfs_forked-open_ends run.0 name id id' run.1 w' (rw ok at h),
          laws.pipe_two w ok,
          laws.fork_same (S.pipe w).1,
        )
    | inr no_pipe ↦ cc (rw no_pipe at h)
  ]

  get_url_forked-open_ends :
      (f : Forked) (id url url' : Bytes) (w w' : W)
      → get_url_forked S f id url w ≡ done ((pos 0, url'), w')
      → open_ends w' ≡ open_ends w - 1
  unfolding get_url_forked
  get_url_forked-open_ends refused id url url' w w' h = cc
  get_url_forked-open_ends child id url url' w w' h =
      absurd (child-pos_zero (codes "fdfs_file_info") id url url' w w' h)
  get_url_forked-open_ends parent id url url' w w' h =
      let (b, u, run, h') =
        Action.>>=-eq-done (read_child S 256 (zeros 256))
          (λ b.
            Action.◌>>=◌ (Action.lift (text_of b))
              λ _. Action.◌>>=◌ (Action.lift (url_of b id url)) λ t. Action.return (pos 0, t))
          h in
      let (_, _, h'') =
        Action.lift-eq-done (text_of b)
          (λ _. Action.◌>>=◌ (Action.lift (url_of b id url)) λ t. Action.return (pos 0, t)) h' in
      let (t, _, e) = Action.lift-eq-done (url_of b id url) (λ t. Action.return (pos 0, t)) h'' in
      omega (arith, ap open_ends (same_pair e).1, read_child-open_ends 256 (zeros 256) b w u run)

  get_url-open_ends :
      (id url url' : Bytes) (w w' : W)
      → get_url S id url w ≡ done ((pos 0, url'), w')
      → open_ends w' ≡ open_ends w + 1
  unfolding get_url
  get_url-open_ends id url url' w w' h = elim (Bool-cases (S.pipe w).0) [
    | inl ok ↦
        let run = S.fork (S.pipe w).1 in
        omega (
          arith,
          get_url_forked-open_ends run.0 id url url' run.1 w' (rw ok at h),
          laws.pipe_two w ok,
          laws.fork_same (S.pipe w).1,
        )
    | inr no_pipe ↦ cc (rw no_pipe at h)
  ]

  -- The end that is read from is never closed: each upload whose two programs are run with the result 0
  -- leaves two ends of pipes open.
  pub storage-open_ends :
      (name id id' url url' : Bytes) (w u w' : W)
      → fdfs_client S name id w ≡ done ((pos 0, id'), u)
      → get_url S id' url u ≡ done ((pos 0, url'), w')
      → open_ends w' ≡ open_ends w + 2
  storage-open_ends name id id' url url' w u w' stored found = omega (
    arith,
    fdfs_client-open_ends name id id' w u stored,
    get_url-open_ends id' url url' u w' found,
  )
