-- ===== src/Shelf/Processes.antt =====
-- The processes of the two main programs at once: what each sends when it runs alone, and what the server
-- holds when their commands come between each other.
use distributed_storage.Base.{◌≡◌, some, List, [], ◌∷◌, ◌++◌, All, pos, length, ℤ}
use distributed_storage.Clib.Exec.{done}
use distributed_storage.Clib.Strings.{Bytes}
use distributed_storage.DataUse.Listing.{increase_file_pv}
use distributed_storage.FileInfo.{FileInfo}
use distributed_storage.RedisOp.Action.{Action}
use distributed_storage.RedisOp.Hiredis.{Hiredis}
use distributed_storage.RoundTrip.{Upload}
use distributed_storage.Shelf.{Shelf}
use distributed_storage.Shelf.Concurrent.{Performs}
use distributed_storage.Shelf.Shuffled.{acts_of}
use distributed_storage.Shelf.Traffic.{Event, uploaded, clicked}
use distributed_storage.Usefull.WriteRedis.{write_redis}

-- The call that a process makes for an event: of `write_redis` with its memory and its arrays, or of
-- `increase_file_pv`.
pub data Process : Event → Type 0 where
  uploads :
      (info : FileInfo) (block create_time ra rb rc rd re : Bytes)
      → Upload info create_time rd 1024
      → length block ≡ 1024
      → Process (uploaded info)
  visits : (id : Bytes) → Process (clicked id)

module _ (H : Hiredis) where
  open H use {World}

  abbrev pub run : (event : Event) → Process event → Action World ℤ
  run _ (uploads info block create_time ra rb rc rd re up size) =
      write_redis H (some block) create_time (info.file_id ++ 0 ∷ ra) (info.url ++ 0 ∷ rb)
        (info.filename ++ 0 ∷ rc) (info.user ++ 0 ∷ re)
  run _ (visits id) = increase_file_pv H id

  module _ (conn : H.Context) where
    -- Run alone, the call opens a connection, sends the event's commands in their order, and returns 0.
    abbrev pub SendsActs : World → (event : Event) → Process event → Type 0
    SendsActs w event p =
        (w' : World) × (run event p w ≡ done (pos 0, w')) × Performs H conn (acts_of event) w w'

    abbrev pub AllSend : World → (events : List Event) → All Process events → Type 0
    AllSend w [] ps = Unit
    AllSend w (event ∷ events) (p, ps) = SendsActs w event p × AllSend w events ps
