-- ===== src/Programs/DataCgi/Reads.antt =====
-- What `read_redis_to_json` does to the list and the scores on the server, however it ends.
use distributed_storage.Base.{
  ℕ, zero, suc, ◌≡◌, ◌⊎◌, inl, inr, ap, ◌∙◌, Bool-cases, if◌then◌else◌, ℤ, pos, ltb_ℤ, some, List,
  [], ◌∷◌, ◌++◌, length, ◌+ℤ◌, ◌-ℤ◌,
}
use distributed_storage.Clib.Chars.{atoi, int_of}
use distributed_storage.Clib.Exec as Exec
use distributed_storage.Clib.Exec.{Exec, done, nonnull}
use distributed_storage.Clib.Print.{sprintf}
use distributed_storage.Clib.Strings.{Bytes, codes, cstring, text_of, equal}
use distributed_storage.DataUse.Listing.{
  CJson, Scratch, scratch, make_item, make_items, list_files, read_redis_to_json, increase_file_pv,
  read_field, make_picurl, times,
}
use distributed_storage.RedisOp.Connect.{rop_connectdb_nopwd, rop_disconnect}
use distributed_storage.RedisOp.Ends.{Ends, Ends-lift, Ends-lift_last, Ends-then}
use distributed_storage.RedisOp.Hiredis.{Hiredis, text, int}
use distributed_storage.RedisOp.Keys.{cmd, rop_test_reply_type, is_string}
use distributed_storage.RedisOp.Values.{
  rop_range_list, rop_zset_get_score, copy_values, max_count, values_id_size,
}
use distributed_storage.Shelf.{ServerLaws, one_more}
use distributed_storage.Shelf.Connects.{Keeps, Connected, connect-Connected}
use distributed_storage.Shelf.Writes.{rop_zset_increment-count}

module _ (H : Hiredis) (conn : H.Context) (laws : ServerLaws H conn) where
  open H use {World}

  -- LRANGE and ZSCORE change nothing, whatever they are asked for.
  pub record ReadLaws : Type 0 where
    pub range_keeps :
        (key : Bytes) (from stop : ℤ) (w : World)
        → Keeps H conn laws w
            (H.command conn
              (cmd (codes "LRANGE %s %d %d") (text key ∷ int from ∷ int stop ∷ []))
              w).1
    pub score_keeps :
        (key member : Bytes) (w : World)
        → Keeps H conn laws w
            (H.command conn (cmd (codes "ZSCORE %s %s") (text key ∷ text member ∷ [])) w).1

module _ (H : Hiredis) (C : CJson) (conn : H.Context) (laws : ServerLaws H conn)
    (reads : ReadLaws H conn laws)
    (only : (ip : Bytes) (port : ℕ) (w : H.World) (c : H.Context)
      → (H.connect ip port w).0 ≡ some c
      → c ≡ conn)
    (start : H.World) where
  open H use {World}
  open C use {Json}

  abbrev pub Kept : World → Type 0
  Kept u = Keeps H conn laws start u

  abbrev pub Same : {A : Type 0} → A → World → Type 0
  Same a u = Kept u

  -- One visit was counted.
  abbrev pub Counted : World → Type 0
  Counted u =
      (id : Bytes) × (laws.rows u ≡ laws.rows start)
      × ((m : Bytes) → laws.scores u m ≡ one_more id (laws.scores start) m)

  abbrev pub Counts : {A : Type 0} → A → World → Type 0
  Counts a u = Kept u ⊎ Counted u

  then_ : {u v : World} → Kept u → Keeps H conn laws u v → Kept v
  then_ first second = (second.0 ∙ first.0, λ m. second.1 m ∙ first.1 m)

  connects :
      (w : World)
      → Kept w
      → Ends (Connected H conn Kept) (rop_connectdb_nopwd H (codes "127.0.0.1") (codes "6379") w)
  connects w same =
      connect-Connected H conn Kept only
        (λ ip port w kept. then_ kept (laws.connect_rows ip port w, laws.connect_scores ip port w))
        (λ w kept. then_ kept (laws.free_rows w, laws.free_scores w)) w same

  range-Same :
      (key : Bytes) (from stop : ℤ) (values : List Bytes) (w : World)
      → Kept w
      → Ends Same (rop_range_list H conn key from stop values w)
  unfolding rop_range_list
  range-Same key from stop values w same =
      let (reply, u) =
        H.command conn (cmd (codes "LRANGE %s %d %d") (text key ∷ int from ∷ int stop ∷ [])) w in
      Ends-lift Same (nonnull reply) _ u λ r _.
        Ends-lift Same (copy_values (max_count (length r.element) stop) r.element values) _ u
          λ values _. then_ same (reads.range_keeps key from stop w)

  score-Same :
      (key member : Bytes) (w : World) → Kept w → Ends Same (rop_zset_get_score H conn key member w)
  unfolding rop_zset_get_score
  score-Same key member w same =
      let (reply, u) =
        H.command conn (cmd (codes "ZSCORE %s %s") (text key ∷ text member ∷ [])) w in
      let kept = then_ same (reads.score_keeps key member w) in
      Ends-lift Same (rop_test_reply_type reply) _ u λ _ _.
        Ends-lift Same (nonnull reply) _ u λ r _. elim (Bool-cases (is_string r.type)) [
          | inl found ↦ rw found (
              Ends-lift_last Same (Exec.◌>>=◌ (nonnull r.str) (λ str. atoi (cstring str))) u
                λ n _. kept)
          | inr missing ↦ rw missing kept
        ]

  make_item-Same :
      (row : Bytes) (s : Scratch) (w : World) → Kept w → Ends Same (make_item H C conn row s w)
  unfolding make_item
  make_item-Same row s w same = Ends-lift Same (read_field row 1 256) _ w λ file_id _.
      Ends-lift Same (text_of file_id) _ w λ id _.
        Ends-lift Same (read_field row 3 256) _ w λ filename _.
          Ends-lift Same (text_of filename) _ w λ _ _.
            Ends-lift Same (read_field row 5 128) _ w λ usr _.
              Ends-lift Same (text_of usr) _ w λ _ _.
                Ends-lift Same (read_field row 4 64) _ w λ time _.
                  Ends-lift Same (text_of time) _ w λ _ _.
                    Ends-lift Same (read_field row 2 256) _ w λ url _.
                      Ends-lift Same (text_of url) _ w λ _ _.
                        Ends-lift Same (make_picurl s url filename) _ w λ made _.
                          Ends-lift Same (text_of made.0) _ w λ _ _.
                            Ends-then Same Same
                              (rop_zset_get_score H conn (codes "FILE_HOT_ZSET") id) _ w
                              (score-Same (codes "FILE_HOT_ZSET") id w same)
                              λ n u kept. Ends-lift Same (int_of (n -ℤ pos 1)) _ u λ _ _. kept

  make_items-Same :
      (n : ℕ) (rows : List Bytes) (s : Scratch) (array : Json) (w : World)
      → Kept w
      → Ends Same (make_items H C conn n rows s array w)
  unfolding make_items
  make_items-Same zero rows s array w same = same
  make_items-Same (suc n) [] s array w same = tt
  make_items-Same (suc n) (row ∷ rows) s array w same =
      Ends-then Same Same (make_item H C conn row s) _ w (make_item-Same row s w same)
        λ made u kept. make_items-Same n rows made.1 (C.add_item_to_array array made.0) u kept

  list_files-Same :
      (from last cnt : ℤ) (rows : List Bytes) (w : World)
      → Kept w
      → Ends Same (list_files H C conn from last cnt rows w)
  unfolding list_files rop_disconnect
  list_files-Same from last cnt rows w same =
      Ends-lift Same (int_of (times cnt values_id_size)) _ w λ _ _.
        Ends-then Same Same (rop_range_list H conn (codes "FILE_INFO_LIST") from last rows) _ w
          (range-Same (codes "FILE_INFO_LIST") from last rows w same)
          λ r u kept. elim (Bool-cases (ltb_ℤ r.0 (pos 0))) [
            | inl failed ↦ rw failed (freed u kept)
            | inr fine ↦ rw fine (
                Ends-then Same Same (make_items H C conn r.2 r.1 scratch C.create_array) _ u
                  (make_items-Same r.2 r.1 scratch C.create_array u kept)
                  λ array v kept'.
                    Ends-lift Same
                      (sprintf 4096 (
                        codes "out = "
                        ++ C.print (C.add_item_to_object C.create_object (codes "games") array)))
                      _ v λ _ _. freed v kept')
          ]
    where
      freed : (u : World) → Kept u → Kept (H.free conn u)
      freed u kept = then_ kept (laws.free_rows u, laws.free_scores u)

  pub read_redis_to_json-Same :
      (from cnt : ℤ) (rows : List Bytes) (w : World)
      → Kept w
      → Ends Same (read_redis_to_json H C from cnt rows w)
  unfolding read_redis_to_json
  read_redis_to_json-Same from cnt rows w same = Ends-lift Same (int_of (from +ℤ cnt)) _ w λ sum _.
      Ends-lift Same (int_of (sum -ℤ pos 1)) _ w λ last _.
        Ends-then (Connected H conn Kept) Same
          (rop_connectdb_nopwd H (codes "127.0.0.1") (codes "6379")) _ w (connects w same)
          λ o u h. elim h.1 [
            | inl failed ↦ rw failed tt
            | inr made ↦ rw made (list_files-Same from last cnt rows u h.0)
          ]

  pub increase_file_pv-Counts :
      (id : Bytes) (w : World) → Kept w → Ends Counts (increase_file_pv H id w)
  unfolding increase_file_pv rop_disconnect
  increase_file_pv-Counts id w same =
      Ends-then (Connected H conn Kept) Counts
        (rop_connectdb_nopwd H (codes "127.0.0.1") (codes "6379")) _ w (connects w same)
        λ o u h. elim h.1 [
          | inl failed ↦ rw failed (inl h.0)
          | inr made ↦
              let (v, counted, rows, scores) = rop_zset_increment-count H conn laws id u in
              rw (made, counted)
                (inr (
                  id,
                  laws.free_rows v ∙ rows ∙ h.0.0,
                  λ m.
                      laws.free_scores v m
                      ∙ scores m
                      ∙ ap (λ n. if equal m id then suc n else n) (h.0.1 m),
                ))
        ]
