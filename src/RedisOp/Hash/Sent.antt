-- ===== src/RedisOp/Hash/Sent.antt =====
-- What the server is sent for a hash table, and the result.
use distributed_storage.Base.{
  ℕ, ◌+◌, ◌<◌, ◌≤◌, ◌≡◌, subst, some, [], ◌∷◌, ◌++◌, append_assoc, arith, length, length-append,
}
use distributed_storage.Clib.Exec.{Exec}
use distributed_storage.Clib.Strings.{Bytes, IsText}
use distributed_storage.RedisOp.Hash.{Realloc, buf_unit, rop_create_or_replace_hash_table}
use distributed_storage.RedisOp.Hash.Text.{IsPair, pairs_text, make_hmset_command-pairs_text}
use distributed_storage.RedisOp.Hiredis.{Hiredis}

small : (n : ℕ) → n < 4096 → n < buf_unit
unfolding buf_unit
small n lt = omega arith

module _ (realloc : Realloc) (block key rk r : Bytes) (size : length block ≡ buf_unit)
    (tk : IsText key) (short : length key ≤ 200) (H : Hiredis) (conn : H.Context) where
  open H use {World}

  -- A value with two spaces in it is taken apart: the table of one field is sent as a table of two, of
  -- which the second has the part of the value between the spaces for its name. The two calls do the
  -- same, whatever the server does. The texts fit into their arrays.
  pub rop_create_or_replace_hash_table_ambiguous :
      (f v f' v' : Bytes) (w : World)
      → IsPair (f, v ++ (b' ' ∷ (f' ++ b' ' ∷ v')))
      → IsPair (f, v)
      → IsPair (f', v')
      → rop_create_or_replace_hash_table realloc H conn
          (some block)
          (key ++ 0 ∷ rk)
          ((f ++ 0 ∷ r, (v ++ (b' ' ∷ (f' ++ b' ' ∷ v'))) ++ 0 ∷ r) ∷ [])
          w
        ≡ rop_create_or_replace_hash_table realloc H conn
            (some block)
            (key ++ 0 ∷ rk)
            ((f ++ 0 ∷ r, v ++ 0 ∷ r) ∷ (f' ++ 0 ∷ r, v' ++ 0 ∷ r) ∷ [])
            w
  unfolding rop_create_or_replace_hash_table
  rop_create_or_replace_hash_table_ambiguous f v f' v' w one first second =
      let whole = v ++ (b' ' ∷ (f' ++ b' ' ∷ v')) in
      let same : pairs_text ((f, whole) ∷ []) ≡ pairs_text ((f, v) ∷ (f', v') ∷ []) =
        simp append_assoc in
      let one_size : 206 + length (pairs_text ((f, whole) ∷ [])) < buf_unit =
        small (206 + length (pairs_text ((f, whole) ∷ []))) (
          omega (
            arith,
            one.0.1,
            one.1.1,
            length-append f (b' ' ∷ (whole ++ [])),
            length-append whole [],
          )) in
      let left =
        make_hmset_command-pairs_text realloc block key rk r ((f, whole) ∷ []) size tk short
          (one, tt) one_size in
      let right =
        make_hmset_command-pairs_text realloc block key rk r ((f, v) ∷ (f', v') ∷ []) size tk short
          (first, (second, tt)) (subst (λ t. 206 + length t < buf_unit) same one_size) in
      rw (left, right, same)
