-- ===== src/Programs/DataCgi.antt =====
-- `main` of src/data_cgi.c: the loop over the requests. A request is given by what the environment and
-- `malloc` hold for it; `FCGI_Accept` gives the requests one by one, and then fails.
pub mod Sizes
pub mod Fresh
pub mod NewFile
pub mod Increase
pub mod Shown
pub mod Reads
pub mod AnyRequest
use distributed_storage.Base.{
  Option, none, some, List, [], ◌∷◌, if◌then◌else◌, ℤ, pos, minus_one, eq_ℤ, not,
}
use distributed_storage.Clib.Chars.{atoi}
use distributed_storage.Clib.Exec as Exec
use distributed_storage.Clib.Exec.{Exec, done, nonnull}
use distributed_storage.Clib.Strings.{Bytes, codes, memset, text_of, equal}
use distributed_storage.DataUse.Listing.{CJson, read_redis_to_json, increase_file_pv}
use distributed_storage.DataUse.Replace.{str_replace}
use distributed_storage.RedisOp.Action.{Action, ◌>>=◌, ◌>>◌, return, lift}
use distributed_storage.RedisOp.Hiredis.{Hiredis}
use distributed_storage.Usefull.Query.{get_cmd, get_from_id, get_cnt, get_file_id}

-- QUERY_STRING, the memory for the rows of the list, and the block for a replacement.
pub record Request : Type 0 where
  pub query_string : Option Bytes
  pub rows : List Bytes
  pub block : Option Bytes

-- The arrays of `main`.
pub record Arrays : Type 0 where
  pub cmd : Bytes
  pub from_id : Bytes
  pub cnt : Bytes
  pub file_id : Bytes

-- What becomes of a request: a page with a body or without, nothing, or the end of `main`; `endless` is
-- a replacement that does not end.
pub data Outcome : Type 0 where
  page : Option Bytes → Outcome
  silent : Outcome
  returns : ℤ → Outcome
  endless : Outcome

-- The four calls of `memset`.
unfoldable pub clear : Arrays → Exec Arrays
clear s = Exec.◌>>=◌ (memset s.cmd 20) λ cmd. Exec.◌>>=◌ (memset s.from_id 64) λ from_id.
    Exec.◌>>=◌ (memset s.cnt 5) λ cnt.
      Exec.◌>>=◌ (memset s.file_id 256)
        λ file_id. done (record { cmd = cmd; from_id = from_id; cnt = cnt; file_id = file_id })

module _ (H : Hiredis) (C : CJson) where
  open H use {World}

  unfoldable pub new_file : Request → Arrays → Action World (Outcome × Arrays)
  new_file req s = do
    from_id ← lift (get_from_id req.query_string s.from_id)
    cnt ← lift (get_cnt req.query_string s.cnt)
    from ← lift (atoi from_id.1)
    count ← lift (atoi cnt.1)
    listed ← read_redis_to_json H C from count req.rows
    return (page listed.1, record s { from_id = from_id.1; cnt = cnt.1 })

  -- Behind the replacement: its result, and the array.
  unfoldable pub count_visit : Option (ℤ × Option Bytes) → Arrays → Action World (Outcome × Arrays)
  count_visit none s = return (endless, s)
  count_visit (some (ret, file_id)) s = do
    file_id ← lift (nonnull file_id)
    let counted = do
      text ← lift (text_of file_id)
      increased ← increase_file_pv H text
      return (page none, record s { file_id = file_id })
    if not (eq_ℤ ret (pos 0)) then return (returns minus_one, s) else counted

  unfoldable pub increase : Request → Arrays → Action World (Outcome × Arrays)
  increase req s = do
    file_id ← lift (get_file_id req.query_string s.file_id)
    replaced ← lift (str_replace (some file_id.1) (some (codes "%2F")) (some (codes "/")) req.block)
    count_visit replaced (record s { file_id = file_id.1 })

  -- The body of the loop.
  unfoldable pub handle : Request → Arrays → Action World (Outcome × Arrays)
  handle req s = do
    s ← lift (clear s)
    cmd ← lift (get_cmd req.query_string s.cmd)
    text ← lift (text_of cmd.1)
    let t = record s { cmd = cmd.1 }
    let other = if equal text (codes "increase") then increase req t else return (silent, t)
    if equal text (codes "newFile") then new_file req t else other

  -- The outcomes from this one on, and the result of `main`, `none` where it does not end.
  abbrev pub go_on :
      Outcome → Action World (List Outcome × Option ℤ) → Action World (List Outcome × Option ℤ)
  go_on (page body) rest = rest >>= λ o. return (page body ∷ o.0, o.1)
  go_on silent rest = rest >>= λ o. return (silent ∷ o.0, o.1)
  go_on (returns n) rest = return (returns n ∷ [], some n)
  go_on endless rest = return (endless ∷ [], none)

  -- The loop.
  unfoldable pub serve : List Request → Arrays → Action World (List Outcome × Option ℤ)
  serve [] s = return ([], some (pos 0))
  serve (req ∷ reqs) s = do r ← handle req s; go_on r.0 (serve reqs r.1)
