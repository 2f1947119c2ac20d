-- ===== src/Programs/DataCgi/AnyRequest.antt =====
-- What any request of `main` does to the list and the scores on the server.
use distributed_storage.Base.{
  ℕ, ◌≡◌, ◌⊎◌, inl, inr, refl, Bool-cases, not, ℤ, pos, eq_ℤ, Option, some, none,
}
use distributed_storage.Clib.Chars.{atoi}
use distributed_storage.Clib.Exec.{done, nonnull}
use distributed_storage.Clib.Strings.{Bytes, codes, text_of, equal}
use distributed_storage.DataUse.Listing.{CJson, read_redis_to_json, increase_file_pv}
use distributed_storage.DataUse.Replace.{str_replace}
use distributed_storage.Programs.DataCgi.{
  Request, Arrays, Outcome, clear, new_file, count_visit, increase, handle,
}
use distributed_storage.RedisOp.Ends.{Ends, Ends-lift, Ends-then, Ends-done}
use distributed_storage.RedisOp.Hiredis.{Hiredis}
use distributed_storage.Shelf.{ServerLaws}
use distributed_storage.Usefull.Query.{get_cmd, get_from_id, get_cnt, get_file_id}
use distributed_storage.Programs.DataCgi.Reads.{
  ReadLaws, Kept, Same, Counts, Counted, read_redis_to_json-Same, increase_file_pv-Counts,
}
use distributed_storage.Shelf.Connects.{Keeps}

module _ (H : Hiredis) (C : CJson) (conn : H.Context) (laws : ServerLaws H conn)
    (reads : ReadLaws H conn laws)
    (only : (ip : Bytes) (port : ℕ) (w : H.World) (c : H.Context)
      → (H.connect ip port w).0 ≡ some c
      → c ≡ conn) where
  open H use {World}

  module _ (start : World) where
    abbrev Unchanged : World → Type 0
    Unchanged = Kept H C conn laws reads only start

    abbrev AtMostOne : {A : Type 0} → A → World → Type 0
    AtMostOne a u = Counts H C conn laws reads only start a u

    abbrev Read : {A : Type 0} → A → World → Type 0
    Read a u = Same H C conn laws reads only start a u

    new_file-AtMostOne :
        (req : Request) (s : Arrays) (w : World)
        → Unchanged w
        → Ends AtMostOne (new_file H C req s w)
    unfolding new_file
    new_file-AtMostOne req s w same =
        let q = req.query_string in
        Ends-lift AtMostOne (get_from_id q s.from_id) _ w λ from_id _.
          Ends-lift AtMostOne (get_cnt q s.cnt) _ w λ cnt _.
            Ends-lift AtMostOne (atoi from_id.1) _ w λ from _.
              Ends-lift AtMostOne (atoi cnt.1) _ w λ count _.
                Ends-then Read AtMostOne (read_redis_to_json H C from count req.rows) _ w
                  (read_redis_to_json-Same H C conn laws reads only start from count req.rows w
                    same)
                  λ listed u kept. inl kept

    count_visit-AtMostOne :
        (r : Option (ℤ × Option Bytes)) (s : Arrays) (w : World)
        → Unchanged w
        → Ends AtMostOne (count_visit H C r s w)
    unfolding count_visit
    count_visit-AtMostOne none s w same = inl same
    count_visit-AtMostOne (some (ret, b)) s w same = Ends-lift AtMostOne (nonnull b) _ w λ t _.
        elim (Bool-cases (not (eq_ℤ ret (pos 0)))) [
          | inl failed ↦ rw failed (inl same)
          | inr fine ↦ rw fine (
              Ends-lift AtMostOne (text_of t) _ w λ id _.
                Ends-then AtMostOne AtMostOne (increase_file_pv H id) _ w
                  (increase_file_pv-Counts H C conn laws reads only start id w same)
                  λ n u counts. counts)
        ]

    increase-AtMostOne :
        (req : Request) (s : Arrays) (w : World)
        → Unchanged w
        → Ends AtMostOne (increase H C req s w)
    unfolding increase
    increase-AtMostOne req s w same =
        Ends-lift AtMostOne (get_file_id req.query_string s.file_id) _ w λ r _.
          Ends-lift AtMostOne
            (str_replace (some r.1) (some (codes "%2F")) (some (codes "/")) req.block) _ w
            λ o _. count_visit-AtMostOne o (record s { file_id = r.1 }) w same

    handle-AtMostOne :
        (req : Request) (s : Arrays) (w : World) → Unchanged w → Ends AtMostOne (handle H C req s w)
    unfolding handle
    handle-AtMostOne req s w same = Ends-lift AtMostOne (clear s) _ w λ c _.
        Ends-lift AtMostOne (get_cmd req.query_string c.cmd) _ w λ cmd _.
          Ends-lift AtMostOne (text_of cmd.1) _ w λ name _.
            let t : Arrays = record c { cmd = cmd.1 } in
            elim (Bool-cases (equal name (codes "newFile"))) [
              | inl new ↦ rw new (new_file-AtMostOne req t w same)
              | inr other ↦ elim (Bool-cases (equal name (codes "increase"))) [
                | inl visit ↦ rw (other, visit) (increase-AtMostOne req t w same)
                | inr none_of ↦ rw (other, none_of) (inl same)
              ]
            ]

  -- Whatever a request of the list program is, and by whatever path it ends, the list on the server stays as
  -- it was, and so do the scores, but for at most one visit that is counted. LRANGE and ZSCORE change
  -- nothing, and a connection is the one that the laws are about.
  pub handle-Counted :
      (req : Request) (s : Arrays) (o : Outcome × Arrays) (w u : World)
      → handle H C req s w ≡ done (o, u)
      → Keeps H conn laws w u ⊎ Counted H C conn laws reads only w u
  handle-Counted req s o w u e =
      Ends-done (AtMostOne w) (handle H C req s w) o u
        (handle-AtMostOne w req s w (refl, λ m. refl)) e
