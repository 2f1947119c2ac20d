-- ===== src/RedisOp/Values/Replies.antt =====
-- What the operations on single values make of the server's replies.
use distributed_storage.Base.{
  ℕ, zero, suc, ◌≤◌, ◌≡◌, ◌≢◌, refl, ap, Option, some, List, [], ◌∷◌, ◌++◌, pos, minus_one, All,
  length, drop, map, arith, min, ne→==,
}
use distributed_storage.Clib.Exec.{done}
use distributed_storage.Clib.Strings.{Bytes, IsText, codes, padded, equal}
use distributed_storage.Clib.Append.{strncpy-pads}
use distributed_storage.RedisOp.Hiredis.{Hiredis, Reply, ReplyType, text, int}
use distributed_storage.RedisOp.Keys.{cmd}
use distributed_storage.RedisOp.Values.{max_count, copy_values, rop_range_list, rop_zset_increment}

-- A score, as the server replies to ZINCRBY: its first byte is a digit, a sign, or that of "inf".
abbrev pub IsScore : Bytes → Type 0
IsScore [] = ⊥
IsScore (c ∷ s) = c ≢ b'O'

-- The rows behind the copy of `n` texts: each is padded with zeros to 1023 bytes.
unfoldable pub written : ℕ → List Bytes → List Bytes → List Bytes
written (suc n) (t ∷ ts) (row ∷ rows) = (padded 1023 t ++ drop 1023 row) ∷ written n ts rows
written _ ts rows = rows

-- A text that a row can hold, and a row.
abbrev pub IsValue : Bytes → Type 0
IsValue t = IsText t × (length t ≤ 1023)

abbrev pub IsRow : Bytes → Type 0
IsRow row = 1023 ≤ length row

copy_values-written :
    (n : ℕ) (ts rows : List Bytes)
    → All IsValue ts
    → All IsRow rows
    → n ≤ length ts
    → n ≤ length rows
    → copy_values n (map some ts) rows ≡ done (written n ts rows)
unfolding copy_values written
copy_values-written zero ts rows ht hr lt lr = refl
copy_values-written (suc n) [] rows ht hr lt lr = absurd (omega arith)
copy_values-written (suc n) (t ∷ ts) [] ht hr lt lr = absurd (omega arith)
copy_values-written (suc n) (t ∷ ts) (row ∷ rows) ht hr lt lr = rw (
  strncpy-pads t [] row 1023 ht.0.0 ht.0.1 hr.0,
  copy_values-written n ts rows ht.1 hr.1 (omega arith) (omega arith),
)

max_count-min : (n stop : ℕ) → max_count n (pos stop) ≡ min n stop
unfolding max_count
max_count-min n stop = ground arith

length-map-some : (ts : List Bytes) → length (map {B = Option Bytes} some ts) ≡ length ts
length-map-some [] = refl
length-map-some (t ∷ ts) = ap suc (length-map-some ts)

module _ (H : Hiredis) (conn : H.Context) where
  open H use {World}

  -- The reply to ZINCRBY is the new score. `rop_zset_increment` compares it with "OK", and so
  -- returns -1 for every increment that the server carries out.
  pub rop_zset_increment_score :
      (key member score : Bytes) (reply : Reply) (w w' : World)
      → H.command conn (cmd (codes "ZINCRBY %s 1 %s") (text key ∷ text member ∷ [])) w
        ≡ (some reply, w')
      → reply.str ≡ some score
      → IsScore score
      → rop_zset_increment H conn key member w ≡ done (minus_one, w')
  unfolding rop_zset_increment equal
  rop_zset_increment_score key member [] reply w w' run str h = absurd h
  rop_zset_increment_score key member (c ∷ s) reply w w' run str h = rw (run, str, ne→== c b'O' h)

  -- Where the server replies to LRANGE with an array of texts of at most 1023 bytes each,
  -- rop_range_list returns 0 and copies and counts the first `stop` of them, or all if there are
  -- fewer, each padded with bytes 0 to 1023. The rows have at least 1023 bytes, there are enough
  -- of them, and the indices are not negative.
  pub rop_range_list-rows :
      (key : Bytes) (from stop : ℕ) (rows ts : List Bytes) (reply : Reply) (w w' : World)
      → H.command conn
          (cmd (codes "LRANGE %s %d %d") (text key ∷ int (pos from) ∷ int (pos stop) ∷ []))
          w
        ≡ (some reply, w')
      → reply.type ≡ ReplyType.array
      → reply.element ≡ map some ts
      → All IsValue ts
      → All IsRow rows
      → min (length ts) stop ≤ length rows
      → rop_range_list H conn key (pos from) (pos stop) rows w
        ≡ done ((pos 0, written (min (length ts) stop) ts rows, min (length ts) stop), w')
  unfolding rop_range_list
  rop_range_list-rows key from stop rows ts reply w w' run type element ht hr room = rw (
    run,
    type,
    element,
    length-map-some ts,
    max_count-min (length ts) stop,
    copy_values-written (min (length ts) stop) ts rows ht hr (omega arith) room,
  )
