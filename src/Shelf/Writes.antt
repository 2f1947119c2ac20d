-- ===== src/Shelf/Writes.antt =====
-- `write_redis` and `increase_file_pv` against the shelf.
use distributed_storage.Base.{
  ◌≡◌, ap, ◌∙◌, some, ◌∷◌, ◌++◌, length, pos, minus_one, suc, if◌then◌else◌,
}
use distributed_storage.Clib.Exec.{done}
use distributed_storage.Clib.Strings.{Bytes, codes, equal}
use distributed_storage.DataUse.Listing.{increase_file_pv}
use distributed_storage.FileInfo.{FileInfo, print}
use distributed_storage.RedisOp.Connect.{rop_connectdb_nopwd, rop_disconnect}
use distributed_storage.RedisOp.Hiredis.{Hiredis}
use distributed_storage.RedisOp.Values.{rop_list_push, rop_zset_increment}
use distributed_storage.RedisOp.Values.Replies.{rop_zset_increment_score}
use distributed_storage.RoundTrip.{Upload}
use distributed_storage.RoundTrip.Sent.{write_redis-print}
use distributed_storage.Shelf.{Shelf, ServerLaws, Holds, add, visit, one_more, list_key, hot_key}
use distributed_storage.Shelf.Connects.{connected-Holds}
use distributed_storage.Usefull.WriteRedis.{write_redis}

module _ (H : Hiredis) (conn : H.Context) (laws : ServerLaws H conn) where
  pub rop_list_push-push :
      (value : Bytes) (w : H.World)
      → (u : H.World) × (rop_list_push H conn list_key value w ≡ done (pos 0, u))
        × (laws.rows u ≡ value ∷ laws.rows w)
        × ((m : Bytes) → laws.scores u m ≡ laws.scores w m)
  unfolding rop_list_push
  rop_list_push-push value w =
      let (reply, u, run, type, rows, scores) = laws.push value w in
      (u, rw (run, type), rows, scores)

  pub rop_zset_increment-count :
      (member : Bytes) (w : H.World)
      → (u : H.World) × (rop_zset_increment H conn hot_key member w ≡ done (minus_one, u))
        × (laws.rows u ≡ laws.rows w)
        × ((m : Bytes) → laws.scores u m ≡ one_more member (laws.scores w) m)
  rop_zset_increment-count member w =
      let (reply, u, score, run, str, is_score, rows, scores) = laws.count member w in
      (
        u,
        rop_zset_increment_score H conn hot_key member score reply w u run str is_score,
        rows,
        scores,
      )

  -- The two commands for a file, and the end of the connection.
  pub push_count-add :
      (info : FileInfo) (shelf : Shelf) (w : H.World)
      → Holds H conn laws shelf w
      → (w₁ w₂ : H.World) × (rop_list_push H conn list_key (print info) w ≡ done (pos 0, w₁))
        × (rop_zset_increment H conn hot_key info.file_id w₁ ≡ done (minus_one, w₂))
        × Holds H conn laws (add info shelf) (H.free conn w₂)
  push_count-add info shelf w held =
      let (w₁, pushed, rows₁, scores₁) = rop_list_push-push (print info) w in
      let (w₂, counted, rows₂, scores₂) = rop_zset_increment-count info.file_id w₁ in
      (
        w₁,
        w₂,
        pushed,
        counted,
        record {
          files = laws.free_rows w₂ ∙ rows₂ ∙ rows₁ ∙ ap (λ t. print info ∷ t) held.files;
          visits = λ m.
              laws.free_scores w₂ m
              ∙ scores₂ m
              ∙ ap (λ n. if equal m info.file_id then suc n else n) (scores₁ m ∙ held.visits m);
        },
      )

  -- Where a connection is made, `write_redis` returns 0, and the server then holds the shelf with the file
  -- in front and one visit more for its id. The upload's text fits into the memory of 1024 bytes.
  pub write_redis-add :
      (info : FileInfo) (block create_time ra rb rc rd re : Bytes) (shelf : Shelf) (w w₀ : H.World)
      → Upload info create_time rd 1024
      → length block ≡ 1024
      → rop_connectdb_nopwd H (codes "127.0.0.1") (codes "6379") w ≡ done (some conn, w₀)
      → Holds H conn laws shelf w
      → (w' : H.World) × (write_redis H
            (some block)
            create_time
            (info.file_id ++ 0 ∷ ra)
            (info.url ++ 0 ∷ rb)
            (info.filename ++ 0 ∷ rc)
            (info.user ++ 0 ∷ re)
            w
          ≡ done (pos 0, w'))
        × Holds H conn laws (add info shelf) w'
  write_redis-add info block create_time ra rb rc rd re shelf w w₀ up size opened before =
      let held = connected-Holds H conn laws shelf w w₀ opened before in
      let (w₁, w₂, pushed, counted, added) = push_count-add info shelf w₀ held in
      (
        H.free conn w₂,
        write_redis-print H conn info block create_time ra rb rc rd re (pos 0) minus_one w w₀ w₁ w₂
            up size opened pushed counted,
        added,
      )

  -- Where a connection is made, `increase_file_pv` returns 0, and the server then holds the shelf with one
  -- visit more for the id, whether or not a file has it.
  pub increase_file_pv-visit :
      (id : Bytes) (shelf : Shelf) (w w₀ : H.World)
      → rop_connectdb_nopwd H (codes "127.0.0.1") (codes "6379") w ≡ done (some conn, w₀)
      → Holds H conn laws shelf w
      → (w' : H.World) × (increase_file_pv H id w ≡ done (pos 0, w'))
        × Holds H conn laws (visit id shelf) w'
  unfolding increase_file_pv rop_disconnect
  increase_file_pv-visit id shelf w w₀ opened before =
      let held = connected-Holds H conn laws shelf w w₀ opened before in
      let (w₁, counted, rows₁, scores₁) = rop_zset_increment-count id w₀ in
      (
        H.free conn w₁,
        rw (opened, counted),
        record {
          files = laws.free_rows w₁ ∙ rows₁ ∙ held.files;
          visits = λ m.
              laws.free_scores w₁ m
              ∙ scores₁ m
              ∙ ap (λ n. if equal m id then suc n else n) (held.visits m);
        },
      )
