-- ===== src/Shelf/Traffic.antt =====
-- Uploads and visits, one behind the other, against the shelf.
use distributed_storage.Base.{
  ℕ, ◌≤◌, ◌<◌, ◌≡◌, subst, some, List, [], ◌∷◌, ◌++◌, All, length, ℤ, arith, Bool-cases, inl, inr,
}
use distributed_storage.Clib.Exec.{Exec, done}
use distributed_storage.Clib.Search.{equal_self}
use distributed_storage.Clib.Strings.{Bytes, codes, equal}
use distributed_storage.DataUse.Listing.{increase_file_pv}
use distributed_storage.FileInfo.{FileInfo}
use distributed_storage.RedisOp.Connect.{rop_connectdb_nopwd}
use distributed_storage.RedisOp.Hiredis.{Hiredis}
use distributed_storage.RoundTrip.{Upload}
use distributed_storage.Shelf.{Shelf, ServerLaws, Holds, add, visit, one_more}
use distributed_storage.Shelf.Writes.{write_redis-add, increase_file_pv-visit}
use distributed_storage.Usefull.WriteRedis.{write_redis}

-- What happens to the shelf.
pub data Event : Type 0 where
  uploaded : FileInfo → Event
  clicked : Bytes → Event

abbrev pub after : List Event → Shelf → Shelf
after [] shelf = shelf
after (uploaded info ∷ events) shelf = after events (add info shelf)
after (clicked id ∷ events) shelf = after events (visit id shelf)

-- The calls that the two main programs make of the server, in the order of the events. Each makes a connection.
pub data Runs (H : Hiredis) (conn : H.Context) : List Event → H.World → H.World → Type 0 where
  ends : {w : H.World} → Runs H conn [] w w
  uploads :
      {events : List Event} {w w₁ w' : H.World} (info : FileInfo)
      (block create_time ra rb rc rd re : Bytes) (ret : ℤ) (w₀ : H.World)
      → Upload info create_time rd 1024
      → length block ≡ 1024
      → rop_connectdb_nopwd H (codes "127.0.0.1") (codes "6379") w ≡ done (some conn, w₀)
      → write_redis H
          (some block)
          create_time
          (info.file_id ++ 0 ∷ ra)
          (info.url ++ 0 ∷ rb)
          (info.filename ++ 0 ∷ rc)
          (info.user ++ 0 ∷ re)
          w
        ≡ done (ret, w₁)
      → Runs H conn events w₁ w'
      → Runs H conn (uploaded info ∷ events) w w'
  clicks :
      {events : List Event} {w w₁ w' : H.World} (id : Bytes) (ret : ℤ) (w₀ : H.World)
      → rop_connectdb_nopwd H (codes "127.0.0.1") (codes "6379") w ≡ done (some conn, w₀)
      → increase_file_pv H id w ≡ done (ret, w₁)
      → Runs H conn events w₁ w'
      → Runs H conn (clicked id ∷ events) w w'

module _ (H : Hiredis) (conn : H.Context) (laws : ServerLaws H conn) where
  same_world :
      {m : Exec (ℤ × H.World)} {a b : ℤ} {u v : H.World} {shelf : Shelf}
      → m ≡ done (a, u)
      → m ≡ done (b, v)
      → Holds H conn laws shelf u
      → Holds H conn laws shelf v
  same_world {u} {v} {shelf} e e' held =
      let same : u ≡ v = cc in subst (Holds H conn laws shelf) same held

  -- After any uploads and visits, in any order, the server holds the shelf of them: each file in the documented
  -- format, newest first, and for each id as many visits as it had, with one for each upload and each
  -- visit of it. Each upload's text fits into its memory, and each call makes its connection.
  pub Runs-Holds :
      {events : List Event} {w w' : H.World} (shelf : Shelf)
      → Runs H conn events w w'
      → Holds H conn laws shelf w
      → Holds H conn laws (after events shelf) w'
  Runs-Holds shelf ends held = held
  Runs-Holds {w} shelf
        (uploads info block create_time ra rb rc rd re ret w₀ up size opened run rest) held =
      let (u, run', added) =
        write_redis-add H conn laws info block create_time ra rb rc rd re shelf w w₀ up size opened
          held in
      Runs-Holds (add info shelf) rest (same_world run' run added)
  Runs-Holds {w} shelf (clicks id ret w₀ opened run rest) held =
      let (u, run', added) = increase_file_pv-visit H conn laws id shelf w w₀ opened held in
      Runs-Holds (visit id shelf) rest (same_world run' run added)

-- Every file of a shelf was visited, its upload counted: what the page needs to show the score.
abbrev pub IsVisited : Shelf → Type 0
IsVisited shelf = All (λ info. 0 < shelf.visits info.file_id) shelf.files

le-one_more : (id m : Bytes) (visits : Bytes → ℕ) → visits m ≤ one_more id visits m
le-one_more id m visits = elim (Bool-cases (equal m id)) [
  | inl same ↦ rw same (omega arith)
  | inr other ↦ rw other (omega arith)
]

more-IsVisited :
    (id : Bytes) (visits : Bytes → ℕ) (files : List FileInfo)
    → All (λ info. 0 < visits info.file_id) files
    → All (λ info. 0 < one_more id visits info.file_id) files
more-IsVisited id visits [] h = tt
more-IsVisited id visits (info ∷ files) h =
    (omega (arith, h.0, le-one_more id info.file_id visits), more-IsVisited id visits files h.1)

pub after-IsVisited :
    (events : List Event) (shelf : Shelf) → IsVisited shelf → IsVisited (after events shelf)
after-IsVisited [] shelf h = h
after-IsVisited (uploaded info ∷ events) shelf h =
    let counted : 0 < one_more info.file_id shelf.visits info.file_id =
      rw (equal_self info.file_id) (omega arith) in
    after-IsVisited events (add info shelf)
      (counted, more-IsVisited info.file_id shelf.visits shelf.files h)
after-IsVisited (clicked id ∷ events) shelf h =
    after-IsVisited events (visit id shelf) (more-IsVisited id shelf.visits shelf.files h)
