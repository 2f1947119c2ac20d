-- ===== src/RedisOp/Pipeline.antt =====
-- The operations of src/redis_op.c that send several commands and then read their replies. The four
-- functions have the same two loops, over another command each.
pub mod Balance
use distributed_storage.Base.{
  ℕ, zero, suc, List, [], ◌∷◌, ℤ, pos, minus_one, Bool, true, false, if◌then◌else◌, length, map,
}
use distributed_storage.Clib.Exec.{Exec, done, fault}
use distributed_storage.Clib.Strings.{Bytes, codes}
use distributed_storage.RedisOp.Action.{Action, ◌>>=◌, return, lift, call}
use distributed_storage.RedisOp.Hiredis.{
  Hiredis, Arg, text, Command, Stored, kept, set_null, set_reply,
}
use distributed_storage.RedisOp.Keys.{cmd}

-- The variable `reply`: NULL, a reply that is there, or one that was released.
pub data Slot : Type 0 where
  null live freed : Slot

unfoldable pub store : Stored → Slot → Slot
store kept slot = slot
store set_null slot = null
store set_reply slot = live

-- `freeReplyObject(reply)`: NULL is allowed, a second release is not.
unfoldable pub free_reply : Slot → Exec Slot
free_reply null = done null
free_reply live = done freed
free_reply freed = fault

module _ (H : Hiredis) (conn : H.Context) where
  open H use {World}

  -- The first loop: does every `redisAppendCommand` return REDIS_OK? It ends at the first that
  -- does not.
  unfoldable pub append_all : List Command → Action World Bool
  append_all [] = return true
  append_all (c ∷ cs) = do
    ok ← call (H.append conn c)
    let rest = append_all cs
    if ok then rest else return false

  -- The second loop, on the rounds left and the variable `reply`, with the result `retn`.
  unfoldable pub commit : ℕ → Slot → Action World ℤ
  unfolding store free_reply
  commit zero slot = return (pos 0)
  commit (suc n) slot = do
    r ← call (H.get_reply conn)
    slot ← lift (free_reply (store r.1 slot))
    let rest = commit n slot
    if r.0 then rest else return minus_one

  unfoldable pub run_pipeline : List Command → Action World ℤ
  run_pipeline cmds = do
    ok ← append_all cmds
    if ok then commit (length cmds) null else return minus_one

  -- Each command is a format of its own.
  unfoldable pub rop_redis_append : List Bytes → Action World ℤ
  rop_redis_append cmds = run_pipeline (map (λ c. cmd c []) cmds)

  abbrev pub hset : Bytes → Bytes × Bytes → Command
  hset key fv = cmd (codes "hset %s %s %s") (text key ∷ text fv.0 ∷ text fv.1 ∷ [])

  -- The pairs are `fields[i]` and `values[i]`.
  unfoldable pub rop_hash_set_append : Bytes → List (Bytes × Bytes) → Action World ℤ
  rop_hash_set_append key pairs = run_pipeline (map (hset key) pairs)

  abbrev pub lpush : Bytes → Bytes → Command
  lpush key value = cmd (codes "lpush %s %s") (text key ∷ text value ∷ [])

  unfoldable pub rop_list_push_append : Bytes → List Bytes → Action World ℤ
  rop_list_push_append key values = run_pipeline (map (lpush key) values)

  abbrev pub zincrby : Bytes → Bytes → Command
  zincrby key member = cmd (codes "ZINCRBY %s 1 %s") (text key ∷ text member ∷ [])

  unfoldable pub rop_zset_increment_append : Bytes → List Bytes → Action World ℤ
  rop_zset_increment_append key values = run_pipeline (map (zincrby key) values)
