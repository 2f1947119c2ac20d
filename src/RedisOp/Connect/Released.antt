-- ===== src/RedisOp/Connect/Released.antt =====
-- Which contexts are released where connecting fails.
use distributed_storage.Base.{
  ℕ, ◌+◌, ◌-◌, ◌≡◌, ◌<◌, refl, ap, sym, ◌∙◌, ◌++◌, [], leb, Option, none, some, false, ℤ, arith,
  Bool-cases, inl, inr, length,
}
use distributed_storage.Clib.Exec.{Exec, done, ◌>>=◌, >>=-eq-done}
use distributed_storage.Clib.Strings.{Bytes, cstring, codes}
use distributed_storage.Clib.Chars.{atoi, uint16}
use distributed_storage.RedisOp.Hiredis.{Hiredis, Command}
use distributed_storage.RedisOp.Keys.{cmd}
use distributed_storage.RedisOp.Connect.{
  checked, authenticate, auth_command, rop_connectdb_nopwd, rop_connectdb,
}

-- The number of contexts that are allocated, and what hiredis documents of it.
pub record ConnectLaws (H : Hiredis) : Type 0 where
  pub allocated : H.World → ℕ
  pub connect_none :
      (ip : Bytes) (port : ℕ) (w : H.World)
      → (H.connect ip port w).0 ≡ none
      → allocated (H.connect ip port w).1 ≡ allocated w
  pub connect_some :
      (ip : Bytes) (port : ℕ) (w : H.World) (c : H.Context)
      → (H.connect ip port w).0 ≡ some c
      → allocated (H.connect ip port w).1 ≡ allocated w + 1
  pub free_one : (c : H.Context) (w : H.World) → allocated (H.free c w) ≡ allocated w - 1
  pub command_same :
      (c : H.Context) (m : Command) (w : H.World) → allocated (H.command c m w).1 ≡ allocated w

fits_command : (n : ℕ) → n < 295 → leb 300 (5 + n) ≡ false
fits_command n h = ground arith

same_world :
    {A W : Type 0} {a b : A} {u v : W} → ◌≡◌ {A = Exec (A × W)} (done (a, u)) (done (b, v)) → u ≡ v
same_world e = cc

module _ (H : Hiredis) (laws : ConnectLaws H) where
  open H use {World, Context}
  open laws use {allocated}

  checked-none :
      (o : Option Context) (w w' : World) (n : ℕ)
      → (o ≡ none → allocated w ≡ n)
      → ((c : Context) → o ≡ some c → allocated w ≡ n + 1)
      → checked H o w ≡ done (none, w')
      → allocated w' ≡ n
  unfolding checked
  checked-none none w w' n hn hs h = ap allocated (sym (same_world h)) ∙ hn refl
  checked-none (some c) w w' n hn hs h = elim (Bool-cases (H.err c w)) [
    | inl bad ↦
        ap allocated (sym (same_world (rw bad at h))) ∙ omega (arith, laws.free_one c w, hs c refl)
    | inr good ↦ cc (rw good at h)
  ]

  -- Where `rop_connectdb_nopwd` returns NULL, no context is left allocated: one that is in error was
  -- released.
  pub rop_connectdb_nopwd-released :
      (ip port : Bytes) (w w' : World)
      → rop_connectdb_nopwd H ip port w ≡ done (none, w')
      → allocated w' ≡ allocated w
  unfolding rop_connectdb_nopwd
  rop_connectdb_nopwd-released ip port w w' h =
      let (r, read, h') =
        >>=-eq-done (atoi (cstring port) >>= λ n. done (n, w))
          (λ r. checked H (H.connect ip (uint16 r.0) r.1).0 (H.connect ip (uint16 r.0) r.1).1) h in
      let (n, _, e) = >>=-eq-done (atoi (cstring port)) (λ n. done (n, w)) read in
      let same : r.1 ≡ w = sym (same_world e) in
      let port_no = uint16 r.0 in
      checked-none (H.connect ip port_no r.1).0 (H.connect ip port_no r.1).1 w' (allocated w)
        (λ e. laws.connect_none ip port_no r.1 e ∙ ap allocated same)
        (λ c e. laws.connect_some ip port_no r.1 c e ∙ ap (λ x. allocated x + 1) same) h'

  -- Where the server does not answer to the password, `rop_connectdb` returns NULL and leaves the
  -- context allocated.
  pub rop_connectdb-leak :
      (ip port pwd : Bytes) (n : ℤ) (c : Context) (w u v : World)
      → atoi (cstring port) ≡ done n
      → length pwd < 295
      → H.connect ip (uint16 n) w ≡ (some c, u)
      → H.err c u ≡ false
      → H.command c (cmd (codes "auth " ++ pwd) []) u ≡ (none, v)
      → (rop_connectdb H ip port pwd w ≡ done (none, v)) × (allocated v ≡ allocated w + 1)
  unfolding rop_connectdb checked authenticate auth_command
  rop_connectdb-leak ip port pwd n c w u v num short opened fine silent = (
    rw (num, opened, fine, fits_command (length pwd) short, silent),
    ap (λ p. allocated p.1) (sym silent)
        ∙ laws.command_same c (cmd (codes "auth " ++ pwd) []) u
        ∙ ap (λ p. allocated p.1) (sym opened)
        ∙ laws.connect_some ip (uint16 n) w c (ap (λ p. p.0) opened),
  )
