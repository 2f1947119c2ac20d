-- ===== src/Shelf/Concurrent.antt =====
-- Several processes of the two programs at once: their commands reach the server one by one, and those
-- of one process in its order.
use distributed_storage.Base.{
  ℕ, ◌≡◌, ap, subst, ◌∙◌, List, [], ◌∷◌, map, Perm, ℤ, suc, if◌then◌else◌,
}
use distributed_storage.Clib.Exec.{Exec, done}
use distributed_storage.Clib.Strings.{Bytes, equal}
use distributed_storage.FileInfo.{FileInfo, print}
use distributed_storage.RedisOp.Hiredis.{Hiredis}
use distributed_storage.RedisOp.Values.{rop_list_push, rop_zset_increment}
use distributed_storage.Shelf.{Shelf, ServerLaws, Holds, visit, list_key, hot_key}
use distributed_storage.Shelf.Connects.{freed-Holds}
use distributed_storage.Shelf.Shuffled.{
  Act, pushes, counts, acts_of, push, performed, Merges, performed-after,
}
use distributed_storage.Shelf.Traffic.{Event, after}
use distributed_storage.Shelf.Writes.{rop_list_push-push, rop_zset_increment-count}

module _ (H : Hiredis) (conn : H.Context) where
  open H use {World}

  -- The calls that the processes make of the server, in the order in which it serves them. Between two
  -- commands any process may open or close a connection.
  pub data Performs : List Act → World → World → Type 0 where
    ends : {w : World} → Performs [] w w
    pushing :
        {acts : List Act} {w w₁ w' : World} (info : FileInfo) (n : ℤ)
        → rop_list_push H conn list_key (print info) w ≡ done (n, w₁)
        → Performs acts w₁ w'
        → Performs (pushes info ∷ acts) w w'
    counting :
        {acts : List Act} {w w₁ w' : World} (id : Bytes) (n : ℤ)
        → rop_zset_increment H conn hot_key id w ≡ done (n, w₁)
        → Performs acts w₁ w'
        → Performs (counts id ∷ acts) w w'
    opening :
        {acts : List Act} {w w' : World} (ip : Bytes) (port : ℕ)
        → Performs acts (H.connect ip port w).1 w'
        → Performs acts w w'
    closing :
        {acts : List Act} {w w' : World} → Performs acts (H.free conn w) w' → Performs acts w w'

  module _ (laws : ServerLaws H conn) where
    moved :
        {m : Exec (ℤ × World)} {a b : ℤ} {u v : World} {shelf : Shelf}
        → m ≡ done (a, u)
        → m ≡ done (b, v)
        → Holds H conn laws shelf u
        → Holds H conn laws shelf v
    moved {u} {v} {shelf} e e' held =
        let same : u ≡ v = cc in subst (Holds H conn laws shelf) same held

    pub Performs-Holds :
        {acts : List Act} {w w' : World} (shelf : Shelf)
        → Performs acts w w'
        → Holds H conn laws shelf w
        → Holds H conn laws (performed acts shelf) w'
    Performs-Holds shelf ends held = held
    Performs-Holds {w} shelf (pushing info n run rest) held =
        let (u, run', rows, scores) = rop_list_push-push H conn laws (print info) w in
        Performs-Holds (push info shelf) rest (
          moved run' run (record {
            files = rows ∙ ap (λ t. print info ∷ t) held.files;
            visits = λ m. scores m ∙ held.visits m;
          }))
    Performs-Holds {w} shelf (counting id n run rest) held =
        let (u, run', rows, scores) = rop_zset_increment-count H conn laws id w in
        Performs-Holds (visit id shelf) rest (
          moved run' run (record {
            files = rows ∙ held.files;
            visits = λ m. scores m ∙ ap (λ k. if equal m id then suc k else k) (held.visits m);
          }))
    Performs-Holds {w} shelf (opening ip port rest) held = Performs-Holds shelf rest (record {
      files = laws.connect_rows ip port w ∙ held.files;
      visits = λ m. laws.connect_scores ip port w m ∙ held.visits m;
    })
    Performs-Holds {w} shelf (closing rest) held =
        Performs-Holds shelf rest (freed-Holds H conn laws shelf w held)

    -- Where several processes upload files and count visits at once, and their commands reach the server in
    -- any order that keeps the order of each process, it holds at the end what it would hold if one had
    -- run behind the other: the same visits, and the same files, each in the documented format, up to
    -- the order of the list.
    pub Performs-after :
        (events : List Event) (acts : List Act) (shelf : Shelf) (w w' : World)
        → Merges (map acts_of events) acts
        → Performs acts w w'
        → Holds H conn laws shelf w
        → (files : List FileInfo) × Perm files (after events shelf).files
          × Holds H conn laws (record { files = files; visits = (after events shelf).visits }) w'
    Performs-after events acts shelf w w' merged run held =
        let (visits, order) = performed-after events acts shelf merged in
        let end = Performs-Holds shelf run held in
        (
          (performed acts shelf).files,
          order,
          record { files = end.files; visits = λ m. end.visits m ∙ visits m },
        )
