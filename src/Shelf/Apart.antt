-- ===== src/Shelf/Apart.antt =====
-- The operating system and the storage's programs beside the server: they keep what it holds.
use distributed_storage.Base.{List, ℕ, ap, subst, ◌∙◌}
use distributed_storage.Clib.Strings.{Bytes}
use distributed_storage.RedisOp.Hiredis.{Hiredis}
use distributed_storage.Shelf.{Shelf, ServerLaws, Holds}
use distributed_storage.Shelf.Connects.{Keeps}
use distributed_storage.Usefull.Storage.Answers.{Answers}
use distributed_storage.Usefull.System.{System, End, writing}

module _ (H : Hiredis) (S : System H.World) (conn : H.Context) (laws : ServerLaws H conn) where
  open H use {World}

  -- Memory, files, pipes and processes are no part of the server, and neither program of the storage
  -- talks to it.
  pub record Apart : Type 0 where
    pub malloc : (n : ℕ) (w : World) → Keeps H conn laws w (S.malloc n w).1
    pub save : (name bytes : Bytes) (w : World) → Keeps H conn laws w (S.save name bytes w)
    pub unlink : (name : Bytes) (w : World) → Keeps H conn laws w (S.unlink name w)
    pub pipe : (w : World) → Keeps H conn laws w (S.pipe w).1
    pub fork : (w : World) → Keeps H conn laws w (S.fork w).1
    pub close : (end : End) (w : World) → Keeps H conn laws w (S.close end w)
    pub wait : (w : World) → Keeps H conn laws w (S.wait w)
    pub read : (n : ℕ) (w : World) → Keeps H conn laws w (S.read n w).1
    pub dup : (w : World) → Keeps H conn laws w (S.dup w)
    pub exec :
        (program : Bytes) (args : List Bytes) (w : World)
        → Keeps H conn laws w (S.exec program args w).1

  pub Keeps-Holds :
      (shelf : Shelf) (w u : World)
      → Keeps H conn laws w u
      → Holds H conn laws shelf w
      → Holds H conn laws shelf u
  Keeps-Holds shelf w u same held = record {
    files = same.0 ∙ held.files;
    visits = λ m. same.1 m ∙ held.visits m;
  }

  pub Keeps-trans :
      (u v w : World) → Keeps H conn laws u v → Keeps H conn laws v w → Keeps H conn laws u w
  Keeps-trans u v w first second = (second.0 ∙ first.0, λ m. second.1 m ∙ first.1 m)

  -- A run of one of the storage's programs.
  pub Answers-Keeps :
      (w w' : World) (out : Bytes) → Apart → Answers S w out w' → Keeps H conn laws w w'
  Answers-Keeps w w' out apart run =
      let piped = subst (Keeps H conn laws w) (ap (λ r. r.1) run.opened) (apart.pipe w) in
      let split =
        subst (Keeps H conn laws run.piped) (ap (λ r. r.1) run.forked) (apart.fork run.piped) in
      let closed = S.close writing run.split in
      let waited = S.wait closed in
      let ended =
        Keeps-trans run.split closed waited (apart.close writing run.split) (apart.wait closed) in
      let told =
        subst (Keeps H conn laws waited) (ap (λ r. r.1) run.reads) (apart.read 256 waited) in
      Keeps-trans w run.piped w' piped
        (Keeps-trans run.piped run.split w' split (Keeps-trans run.split waited w' ended told))
