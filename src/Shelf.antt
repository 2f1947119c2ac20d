-- ===== src/Shelf.antt =====
-- What the program keeps on the server, seen as a whole: the files that were uploaded, newest first, and
-- how often each was asked for. The server's commands, which are not part of the program, are described
-- by the documentation of Redis.
pub mod Connects
pub mod Writes
pub mod Scores
pub mod Shows
pub mod Traffic
pub mod Listed
pub mod Apart
pub mod Shuffled
pub mod Concurrent
pub mod Processes
use distributed_storage.Base.{
  ℕ, suc, ◌+◌, ◌-◌, ◌≤◌, ◌<◌, ◌≡◌, Option, some, List, [], ◌∷◌, map, take, drop, pos, if◌then◌else◌,
}
use distributed_storage.Clib.Chars.{atoi, int_max}
use distributed_storage.Clib.Exec.{done}
use distributed_storage.Clib.Strings.{Bytes, codes, cstring, equal}
use distributed_storage.FileInfo.{FileInfo, print}
use distributed_storage.RedisOp.Hiredis.{Hiredis, Reply, ReplyType, text, int}
use distributed_storage.RedisOp.Keys.{cmd}
use distributed_storage.RedisOp.Values.Replies.{IsScore}

-- The files, newest first, and the visits by the file's id.
pub record Shelf : Type 0 where
  pub files : List FileInfo
  pub visits : Bytes → ℕ

abbrev pub one_more : Bytes → (Bytes → ℕ) → Bytes → ℕ
one_more id visits m = if equal m id then suc (visits m) else visits m

-- A visit, and an upload, which counts as one.
abbrev pub visit : Bytes → Shelf → Shelf
visit id shelf = record { files = shelf.files; visits = one_more id shelf.visits }

abbrev pub add : FileInfo → Shelf → Shelf
add info shelf = record { files = info ∷ shelf.files; visits = one_more info.file_id shelf.visits }

abbrev pub list_key : Bytes
list_key = codes "FILE_INFO_LIST"

abbrev pub hot_key : Bytes
hot_key = codes "FILE_HOT_ZSET"

-- The list of that key, newest first, and the scores of the sorted set, 0 for a member that it lacks.
-- LPUSH puts a value in front and replies with a number. ZINCRBY replies with the new score. LRANGE
-- replies with the values of a range, both ends included. ZSCORE replies with the score of a member in
-- decimal digits, and with nil for a member that the set lacks. Opening and
-- closing a connection change nothing.
pub record ServerLaws (H : Hiredis) (conn : H.Context) : Type 0 where
  pub rows : H.World → List Bytes
  pub scores : H.World → Bytes → ℕ
  pub push :
      (value : Bytes) (w : H.World)
      → (reply : Reply) × (u : H.World) × (H.command conn
            (cmd (codes "LPUSH %s %s") (text list_key ∷ text value ∷ []))
            w
          ≡ (some reply, u))
        × (reply.type ≡ ReplyType.integer)
        × (rows u ≡ value ∷ rows w)
        × ((m : Bytes) → scores u m ≡ scores w m)
  pub count :
      (member : Bytes) (w : H.World)
      → (reply : Reply) × (u : H.World) × (score : Bytes) × (H.command conn
            (cmd (codes "ZINCRBY %s 1 %s") (text hot_key ∷ text member ∷ []))
            w
          ≡ (some reply, u))
        × (reply.str ≡ some score)
        × IsScore score
        × (rows u ≡ rows w)
        × ((m : Bytes) → scores u m ≡ one_more member (scores w) m)
  pub range :
      (from stop : ℕ) (w : H.World)
      → (reply : Reply) × (H.command conn
            (cmd (codes "LRANGE %s %d %d") (text list_key ∷ int (pos from) ∷ int (pos stop) ∷ []))
            w
          ≡ (some reply, w))
        × (reply.type ≡ ReplyType.array)
        × (reply.element ≡ map some (take (stop + 1 - from) (drop from (rows w))))
  pub score :
      (member : Bytes) (w : H.World)
      → 0 < scores w member
      → scores w member ≤ int_max
      → (reply : Reply) × (digits : Bytes) × (H.command conn
            (cmd (codes "ZSCORE %s %s") (text hot_key ∷ text member ∷ []))
            w
          ≡ (some reply, w))
        × (reply.type ≡ ReplyType.string)
        × (reply.str ≡ some digits)
        × (atoi (cstring digits) ≡ done (pos (scores w member)))
  pub no_score :
      (member : Bytes) (w : H.World)
      → scores w member ≡ 0
      → (reply : Reply) × (H.command conn
            (cmd (codes "ZSCORE %s %s") (text hot_key ∷ text member ∷ []))
            w
          ≡ (some reply, w))
        × (reply.type ≡ ReplyType.nil)
  pub connect_rows : (ip : Bytes) (port : ℕ) (w : H.World) → rows (H.connect ip port w).1 ≡ rows w
  pub connect_scores :
      (ip : Bytes) (port : ℕ) (w : H.World) (m : Bytes)
      → scores (H.connect ip port w).1 m ≡ scores w m
  pub free_rows : (w : H.World) → rows (H.free conn w) ≡ rows w
  pub free_scores : (w : H.World) (m : Bytes) → scores (H.free conn w) m ≡ scores w m

-- The server holds the shelf: each file in the documented format, and the visits as scores.
pub record Holds (H : Hiredis) (conn : H.Context) (laws : ServerLaws H conn) (shelf : Shelf)
    (w : H.World) : Type 0 where
  pub files : laws.rows w ≡ map print shelf.files
  pub visits : (m : Bytes) → laws.scores w m ≡ shelf.visits m
