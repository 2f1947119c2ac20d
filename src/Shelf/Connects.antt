-- ===== src/Shelf/Connects.antt =====
-- The shelf while a connection is made.
use distributed_storage.Base.{
  ℕ, ◌⊎◌, subst, ◌≡◌, refl, ap, ◌∙◌, sym, Option, some, none, Bool-cases, inl, inr, pos,
}
use distributed_storage.Clib.Chars.{atoi, signed, digits, isdigit, isspace, uint16}
use distributed_storage.Clib.Exec.{done}
use distributed_storage.Clib.Strings.{Bytes, codes, cstring}
use distributed_storage.RedisOp.Connect.{rop_connectdb_nopwd, checked}
use distributed_storage.RedisOp.Ends.{Ends, Ends-lift}
use distributed_storage.RedisOp.Hiredis.{Hiredis}
use distributed_storage.Shelf.{Shelf, ServerLaws, Holds}

module _ (H : Hiredis) (conn : H.Context) where
  open H use {World}

  port_number : atoi (cstring (codes "6379")) ≡ done (pos 6379)
  port_number = unfold atoi signed digits isdigit isspace in refl

  checked-some :
      (o : Option H.Context) (u w₀ : World) → checked H o u ≡ done (some conn, w₀) → u ≡ w₀
  unfolding checked
  checked-some none u w₀ e = cc
  checked-some (some c) u w₀ e = elim (Bool-cases (H.err c u)) [
    | inl bad ↦ cc (rw bad at e)
    | inr good ↦ cc (rw good at e)
  ]

  pub made :
      (w w₀ : World)
      → rop_connectdb_nopwd H (codes "127.0.0.1") (codes "6379") w ≡ done (some conn, w₀)
      → (H.connect (codes "127.0.0.1") (uint16 (pos 6379)) w).1 ≡ w₀
  unfolding rop_connectdb_nopwd
  made w w₀ e =
      let (c, u) = H.connect (codes "127.0.0.1") (uint16 (pos 6379)) w in
      checked-some c u w₀ (rw port_number at e)

  pub connected-Holds :
      (laws : ServerLaws H conn) (shelf : Shelf) (w w₀ : World)
      → rop_connectdb_nopwd H (codes "127.0.0.1") (codes "6379") w ≡ done (some conn, w₀)
      → Holds H conn laws shelf w
      → Holds H conn laws shelf w₀
  connected-Holds laws shelf w w₀ e held =
      let ip = codes "127.0.0.1" in
      let port = uint16 (pos 6379) in
      record {
        files = ap laws.rows (sym (made w w₀ e)) ∙ laws.connect_rows ip port w ∙ held.files;
        visits = λ m.
            ap (λ u. laws.scores u m) (sym (made w w₀ e))
            ∙ laws.connect_scores ip port w m
            ∙ held.visits m;
      }

  pub freed-Holds :
      (laws : ServerLaws H conn) (shelf : Shelf) (w : World)
      → Holds H conn laws shelf w
      → Holds H conn laws shelf (H.free conn w)
  freed-Holds laws shelf w held = record {
    files = laws.free_rows w ∙ held.files;
    visits = λ m. laws.free_scores w m ∙ held.visits m;
  }

-- The list and the scores are the same.
abbrev pub Keeps : (H : Hiredis) (conn : H.Context) → ServerLaws H conn → H.World → H.World → Type 0
Keeps H conn laws w u =
    (laws.rows u ≡ laws.rows w) × ((m : Bytes) → laws.scores u m ≡ laws.scores w m)

-- The context, or none, and a state of that kind.
abbrev pub Connected :
    (H : Hiredis) → H.Context → (H.World → Type 0) → Option H.Context → H.World → Type 0
Connected H conn P o u = P u × ((o ≡ none) ⊎ (o ≡ some conn))

-- What connecting and releasing keep holds behind `rop_connectdb_nopwd`, which gives the context or none.
module _ (H : Hiredis) (conn : H.Context) (P : H.World → Type 0)
    (only : (ip : Bytes) (port : ℕ) (w : H.World) (c : H.Context)
      → (H.connect ip port w).0 ≡ some c
      → c ≡ conn)
    (connecting : (ip : Bytes) (port : ℕ) (w : H.World) → P w → P (H.connect ip port w).1)
    (freeing : (w : H.World) → P w → P (H.free conn w)) where
  open H use {World}

  abbrev Joined : Option H.Context → World → Type 0
  Joined = Connected H conn P

  checked-Connected :
      (o : Option H.Context) (u : World)
      → ((c : H.Context) → o ≡ some c → c ≡ conn)
      → P u
      → Ends Joined (checked H o u)
  unfolding checked
  checked-Connected none u is holds = (holds, inl refl)
  checked-Connected (some c) u is holds =
      let it : c ≡ conn = is c refl in
      elim (Bool-cases (H.err c u)) [
        | inl bad ↦ rw bad (subst (λ c'. P (H.free c' u)) (sym it) (freeing u holds), inl refl)
        | inr good ↦ rw good (holds, inr (ap some it))
      ]

  pub connect-Connected :
      (w : World) → P w → Ends Joined (rop_connectdb_nopwd H (codes "127.0.0.1") (codes "6379") w)
  unfolding rop_connectdb_nopwd
  connect-Connected w holds = Ends-lift Joined (atoi (cstring (codes "6379"))) _ w λ port e.
      let ip = codes "127.0.0.1" in
      let n = uint16 port in
      checked-Connected (H.connect ip n w).0 (H.connect ip n w).1 (only ip n w)
        (connecting ip n w holds)
