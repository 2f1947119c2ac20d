-- ===== src/Programs/DataCgi/Fresh.antt =====
-- What one request leaves in the arrays of `main` for a later one.
use distributed_storage.Base.{
  ◌≡◌, refl, ◌∙◌, Option, none, some, List, [], ◌∷◌, not, Bool-cases, inl, inr, ℤ, pos, length,
  eq_ℤ, if◌then◌else◌,
}
use distributed_storage.Clib.Append.{memset-whole}
use distributed_storage.Clib.Chars.{atoi}
use distributed_storage.Clib.Exec.{done, Exec-cases, nonnull}
use distributed_storage.Clib.Strings.{Bytes, codes, zeros, text_of, equal}
use distributed_storage.DataUse.Listing.{CJson, read_redis_to_json, increase_file_pv}
use distributed_storage.DataUse.Replace.{str_replace}
use distributed_storage.Programs.DataCgi.{
  Request, Arrays, Outcome, page, silent, returns, endless, clear, new_file, count_visit, increase,
  handle, serve, go_on,
}
use distributed_storage.Programs.DataCgi.Sizes.{length-get_parameter, length-str_replace}
use distributed_storage.RedisOp.Action.{Action, ◌>>=◌, return}
use distributed_storage.RedisOp.Ends.{Ends, Ends-bind, Ends-lift, Ends-done}
use distributed_storage.RedisOp.Hiredis.{Hiredis}
use distributed_storage.Usefull.Query.{get_cmd, get_from_id, get_cnt, get_file_id}

-- The sizes with which the arrays are declared.
pub record IsSized (s : Arrays) : Type 0 where
  pub cmd_size : length s.cmd ≡ 20
  pub from_id_size : length s.from_id ≡ 64
  pub cnt_size : length s.cnt ≡ 5
  pub file_id_size : length s.file_id ≡ 256

abbrev pub clean : Arrays
clean = record { cmd = zeros 20; from_id = zeros 64; cnt = zeros 5; file_id = zeros 256 }

clean-IsSized : IsSized clean
clean-IsSized = record {
  cmd_size = refl;
  from_id_size = refl;
  cnt_size = refl;
  file_id_size = refl;
}

pub clear-clean : (s : Arrays) → IsSized s → clear s ≡ done clean
unfolding clear
clear-clean s h = rw (
  memset-whole s.cmd 20 h.cmd_size,
  memset-whole s.from_id 64 h.from_id_size,
  memset-whole s.cnt 5 h.cnt_size,
  memset-whole s.file_id 256 h.file_id_size,
)

module _ (H : Hiredis) (C : CJson) where
  open H use {World}

  handle-clean :
      (req : Request) (s : Arrays) (w : World)
      → IsSized s
      → handle H C req s w ≡ handle H C req clean w
  unfolding handle
  handle-clean req s w h = rw (clear-clean s h, clear-clean clean clean-IsSized)

  abbrev Sized : Outcome × Arrays → World → Type 0
  Sized r u = IsSized r.1

  new_file-IsSized :
      (req : Request) (s : Arrays) (w : World) → IsSized s → Ends Sized (new_file H C req s w)
  unfolding new_file get_from_id get_cnt
  new_file-IsSized req s w h =
      let q = req.query_string in
      Ends-lift Sized (get_from_id q s.from_id) _ w λ from_id e₁.
        Ends-lift Sized (get_cnt q s.cnt) _ w λ cnt e₂.
          Ends-lift Sized (atoi from_id.1) _ w λ from e₃.
            Ends-lift Sized (atoi cnt.1) _ w λ count e₄.
              Ends-bind Sized (read_redis_to_json H C from count req.rows) _ w λ listed u e₅.
                record {
                  cmd_size = h.cmd_size;
                  from_id_size =
                      length-get_parameter (codes "fromId") q s.from_id from_id.1 from_id.0 e₁
                      ∙ h.from_id_size;
                  cnt_size =
                      length-get_parameter (codes "count") q s.cnt cnt.1 cnt.0 e₂ ∙ h.cnt_size;
                  file_id_size = h.file_id_size;
                }

  count_visit-IsSized :
      (ret : ℤ) (b : Option Bytes) (s : Arrays) (w : World)
      → IsSized s
      → ((t : Bytes) → b ≡ some t → length t ≡ 256)
      → Ends Sized (count_visit H C (some (ret, b)) s w)
  unfolding count_visit
  count_visit-IsSized ret b s w h size = Ends-lift Sized (nonnull b) _ w λ t e.
      elim (Bool-cases (not (eq_ℤ ret (pos 0)))) [
        | inl failed ↦ rw failed h
        | inr fine ↦ rw fine (
            Ends-lift Sized (text_of t) _ w λ text e'.
              Ends-bind Sized (increase_file_pv H text) _ w λ n u e''. record {
                cmd_size = h.cmd_size;
                from_id_size = h.from_id_size;
                cnt_size = h.cnt_size;
                file_id_size = size t (given b t e);
              })
      ]
    where
      given : (b : Option Bytes) (t : Bytes) → nonnull b ≡ done t → b ≡ some t
      given none t e = cc
      given (some x) t e = cc

  increase-IsSized :
      (req : Request) (s : Arrays) (w : World) → IsSized s → Ends Sized (increase H C req s w)
  unfolding increase get_file_id
  increase-IsSized req s w h = Ends-lift Sized (get_file_id req.query_string s.file_id) _ w λ r e₁.
      Ends-lift Sized (str_replace (some r.1) (some (codes "%2F")) (some (codes "/")) req.block) _ w
        λ o e₂.
          let size =
            length-get_parameter (codes "fileId") req.query_string s.file_id r.1 r.0 e₁
            ∙ h.file_id_size in
          by_result r.1 o e₂ size
    where
      with_file_id : (b : Bytes) → length b ≡ 256 → IsSized (record s { file_id = b })
      with_file_id b size = record {
        cmd_size = h.cmd_size;
        from_id_size = h.from_id_size;
        cnt_size = h.cnt_size;
        file_id_size = size;
      }

      longer :
          (b x : Bytes) (ret : ℤ) (t : Option Bytes)
          → str_replace (some b) (some (codes "%2F")) (some (codes "/")) req.block
            ≡ done (some (ret, t))
          → t ≡ some x
          → length x ≡ length b
      longer b x ret t e given =
          length-str_replace b (codes "%2F") (codes "/") x req.block ret (rw given at e)

      by_result :
          (b : Bytes) (o : Option (ℤ × Option Bytes))
          → str_replace (some b) (some (codes "%2F")) (some (codes "/")) req.block ≡ done o
          → length b ≡ 256
          → Ends Sized (count_visit H C o (record s { file_id = b }) w)
      by_result b none e size = unfold count_visit in with_file_id b size
      by_result b (some (ret, t)) e size =
          count_visit-IsSized ret t (record s { file_id = b }) w (with_file_id b size)
            (λ x given. longer b x ret t e given ∙ size)

  handle-IsSized : (req : Request) (w : World) → Ends Sized (handle H C req clean w)
  unfolding handle get_cmd
  handle-IsSized req w = Ends-lift Sized (clear clean) _ w λ c e₀.
      Ends-lift Sized (get_cmd req.query_string c.cmd) _ w λ cmd e₁.
        Ends-lift Sized (text_of cmd.1) _ w λ text e₂.
          let sized : IsSized c =
            let same : c ≡ clean = cc (clear-clean clean clean-IsSized) in rw same clean-IsSized in
          let t : Arrays = record c { cmd = cmd.1 } in
          let ht : IsSized t = record {
            cmd_size =
                length-get_parameter (codes "cmd") req.query_string c.cmd cmd.1 cmd.0 e₁
                ∙ sized.cmd_size;
            from_id_size = sized.from_id_size;
            cnt_size = sized.cnt_size;
            file_id_size = sized.file_id_size;
          } in
          branches t text ht
    where
      branches :
          (t : Arrays) (text : Bytes)
          → IsSized t
          → Ends Sized (
              (if equal text (codes "newFile")
                  then new_file H C req t
                  else if equal text (codes "increase")
                  then increase H C req t
                  else return (silent, t))
                w)
      branches t text ht = elim (Bool-cases (equal text (codes "newFile"))) [
        | inl new ↦ rw new (new_file-IsSized req t w ht)
        | inr other ↦ elim (Bool-cases (equal text (codes "increase"))) [
          | inl visit ↦ rw (other, visit) (increase-IsSized req t w ht)
          | inr none_of ↦ rw (other, none_of) ht
        ]
      ]

  -- What a program does that begins every request with cleared arrays.
  unfoldable pub answers : List Request → Action World (List Outcome × Option ℤ)
  answers [] = return ([], some (pos 0))
  answers (req ∷ reqs) = do r ← handle H C req clean; go_on H C r.0 (answers reqs)

  -- The requests are answered as by a program that begins each of them with cleared arrays: what one
  -- request left in the arrays of `main` is never seen by another, whatever the requests are, and whatever
  -- the arrays of the declared sizes held at first.
  pub serve-answers :
      (reqs : List Request) (s : Arrays) (w : World)
      → IsSized s
      → serve H C reqs s w ≡ answers reqs w
  unfolding serve answers
  serve-answers [] s w h = refl
  serve-answers (req ∷ reqs) s w h = elim (Exec-cases (handle H C req clean w)) [
    | inl (((o, t), u), e) ↦
        let sized = Ends-done Sized (handle H C req clean w) (o, t) u (handle-IsSized req w) e in
        rw (handle-clean req s w h, e) (go_on-same o t u (serve-answers reqs t u sized))
    | inr (inl (n, e)) ↦ rw (handle-clean req s w h, e)
    | inr (inr e) ↦ rw (handle-clean req s w h, e)
  ]
    where
      go_on-same :
          (o : Outcome) (t : Arrays) (u : World)
          → serve H C reqs t u ≡ answers reqs u
          → go_on H C o (serve H C reqs t) u ≡ go_on H C o (answers reqs) u
      go_on-same (page body) t u e = rw e
      go_on-same silent t u e = rw e
      go_on-same (returns n) t u e = refl
      go_on-same endless t u e = refl
