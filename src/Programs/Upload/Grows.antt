-- ===== src/Programs/Upload/Grows.antt =====
-- What `write_redis` does to the list and the scores on the server, however it ends.
use distributed_storage.Base.{
  ℕ, suc, ◌≡◌, ◌⊎◌, inl, inr, ap, ◌∙◌, if◌then◌else◌, Option, some, none, ◌∷◌,
}
use distributed_storage.Clib.Strings.{Bytes, codes, text_of, memset, equal}
use distributed_storage.Programs.Upload.Processes.{Kept, SameAs, and}
use distributed_storage.RedisOp.Connect.{rop_connectdb_nopwd, rop_disconnect}
use distributed_storage.RedisOp.Ends.{Ends, Ends-lift, Ends-then}
use distributed_storage.RedisOp.Hiredis.{Hiredis}
use distributed_storage.Shelf.{ServerLaws, one_more}
use distributed_storage.Shelf.Apart.{Apart}
use distributed_storage.Shelf.Connects.{Keeps}
use distributed_storage.Shelf.Connects.{Connected, connect-Connected}
use distributed_storage.Shelf.Writes.{rop_list_push-push, rop_zset_increment-count}
use distributed_storage.Usefull.System.{System}
use distributed_storage.Usefull.WriteRedis.{
  write_redis, with_connection, with_memory, write_value, make_value,
}

module _ (H : Hiredis) (S : System H.World) (conn : H.Context) (laws : ServerLaws H conn)
    (apart : Apart H S conn laws)
    (only : (ip : Bytes) (port : ℕ) (w : H.World) (c : H.Context)
      → (H.connect ip port w).0 ≡ some c
      → c ≡ conn)
    (start : H.World) where
  open H use {World}

  -- One value was put in front of the list, and one visit was counted.
  pub record Added (u : World) : Type 0 where
    pub value : Bytes
    pub id : Bytes
    pub rows : laws.rows u ≡ value ∷ laws.rows start
    pub scores : (m : Bytes) → laws.scores u m ≡ one_more id (laws.scores start) m

  abbrev pub Grows : {A : Type 0} → A → World → Type 0
  Grows a u = Kept H S conn laws apart start u ⊎ Added u

  abbrev Same : {A : Type 0} → A → World → Type 0
  Same a u = SameAs H S conn laws apart start a u

  abbrev then_ : {u v : World} → Same tt u → Keeps H conn laws u v → Same tt v
  then_ first second = and H S conn laws apart start first second

  free-Keeps : (u : World) → Keeps H conn laws u (H.free conn u)
  free-Keeps u = (laws.free_rows u, laws.free_scores u)

  connects :
      (w : World)
      → Same tt w
      → Ends
          (Connected H conn (Kept H S conn laws apart start))
          (rop_connectdb_nopwd H (codes "127.0.0.1") (codes "6379") w)
  connects w same =
      connect-Connected H conn (Kept H S conn laws apart start) only
        (λ ip port w kept. then_ kept (laws.connect_rows ip port w, laws.connect_scores ip port w))
        (λ w kept. then_ kept (free-Keeps w)) w same

  write_value-Grows :
      (block create_time id url name usr : Bytes) (w : World)
      → Same tt w
      → Ends Grows (write_value H conn block create_time id url name usr w)
  unfolding write_value rop_disconnect
  write_value-Grows block create_time id url name usr w same =
      Ends-lift Grows (memset block 1024) _ w λ b _.
        Ends-lift Grows (make_value b create_time id url name usr) _ w λ b _.
          Ends-lift Grows (text_of b) _ w λ value _.
            let (u, pushed, rows, scores) = rop_list_push-push H conn laws value w in
            rw pushed (
              Ends-lift Grows (text_of id) _ u λ member _.
                let (v, counted, rows', scores') = rop_zset_increment-count H conn laws member u in
                rw counted (
                  inr (record {
                    value = value;
                    id = member;
                    rows = laws.free_rows v ∙ rows' ∙ rows ∙ ap (λ t. value ∷ t) same.0;
                    scores = λ m.
                        laws.free_scores v m
                        ∙ scores' m
                        ∙ ap (λ n. if equal m member then suc n else n) (scores m ∙ same.1 m);
                  })))

  pub write_redis-Grows :
      (malloc : Option Bytes) (create_time id url name usr : Bytes) (w : World)
      → Same tt w
      → Ends Grows (write_redis H malloc create_time id url name usr w)
  unfolding write_redis
  write_redis-Grows malloc create_time id url name usr w same =
      Ends-then (Connected H conn (Kept H S conn laws apart start)) Grows
        (rop_connectdb_nopwd H (codes "127.0.0.1") (codes "6379")) _ w (connects w same)
        λ o u h. with_connection-Grows o malloc u h.0 h.1
    where
      with_memory-Grows :
          (malloc : Option Bytes) (u : World)
          → Same tt u
          → Ends Grows (with_memory H conn malloc create_time id url name usr u)
      with_memory-Grows none u kept =
          unfold with_memory rop_disconnect in inl (then_ kept (free-Keeps u))
      with_memory-Grows (some block) u kept =
          unfold with_memory in write_value-Grows block create_time id url name usr u kept

      with_connection-Grows :
          (o : Option H.Context) (malloc : Option Bytes) (u : World)
          → Same tt u
          → (o ≡ none) ⊎ (o ≡ some conn)
          → Ends Grows (with_connection H o malloc create_time id url name usr u)
      with_connection-Grows o malloc u kept (inl failed) = rw failed (unfold with_connection in tt)
      with_connection-Grows o malloc u kept (inr made) =
          rw made (unfold with_connection in with_memory-Grows malloc u kept)
