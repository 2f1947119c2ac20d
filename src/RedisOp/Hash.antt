-- ===== src/RedisOp/Hash.antt =====
-- The operation of src/redis_op.c that writes a whole hash table by one command. `malloc` and
-- `realloc` are given as what they return.
pub mod Text
pub mod Sent
use distributed_storage.Base.{
  ℕ, ◌+◌, ◌%◌, Option, none, some, List, [], ◌∷◌, leb, if◌then◌else◌, ℤ, pos, minus_one, not,
}
use distributed_storage.Clib.Exec as Exec
use distributed_storage.Clib.Exec.{Exec, done, nonnull}
use distributed_storage.Clib.Strings.{
  Bytes, codes, cstring, memset, strncat, strlen, equal, text_of,
}
use distributed_storage.RedisOp.Action.{Action, ◌>>=◌, return, lift, call}
use distributed_storage.RedisOp.Hiredis.{Hiredis}
use distributed_storage.RedisOp.Keys.{cmd}

-- 1024 * 1024
unfoldable pub buf_unit : ℕ
buf_unit = 1048576

abbrev pub field_id_size : ℕ
field_id_size = 100

-- An `unsigned int`.
abbrev pub uint32 : ℕ → ℕ
uint32 n = n % 4294967296

-- The variables `cmd`, `buf_size` and `use_size`.
pub record Buffer : Type 0 where
  pub cmd : Bytes
  pub buf_size : ℕ
  pub use_size : ℕ

-- `realloc(cmd, n)`, by `n` and what `cmd` holds.
abbrev pub Realloc : Type 0
Realloc = ℕ → Bytes → Option Bytes

abbrev pub then_some : Exec (Option Buffer) → (Buffer → Exec (Option Buffer)) → Exec (Option Buffer)
then_some m f = Exec.◌>>=◌ m (λ o. elim o [ none ↦ done none | some b ↦ f b ])

module _ (realloc : Realloc) where
  -- `if (use_size >= buf_size) { cmd = realloc(...); ... buf_size += 1024*1024; }`
  unfoldable pub grow : Buffer → Option Buffer
  grow b =
      let more : Option Buffer = elim (realloc (uint32 (b.use_size + buf_unit)) b.cmd) [
        | none ↦ none
        | some c ↦
            some
              (record { cmd = c; buf_size = uint32 (b.buf_size + buf_unit); use_size = b.use_size })
      ] in
      if leb b.buf_size b.use_size then more else some b

  -- `strncat(cmd, src, n); use_size += added;` and the test behind it.
  unfoldable pub add_part : Bytes → ℕ → ℕ → Buffer → Exec (Option Buffer)
  add_part src n added b = Exec.◌>>=◌ (strncat b.cmd src n) λ c.
      done
        (grow (record { cmd = c; buf_size = b.buf_size; use_size = uint32 (b.use_size + added) }))

  abbrev pub add_array : Bytes → ℕ → Buffer → Exec (Option Buffer)
  add_array src n b = Exec.◌>>=◌ (strlen src) λ len. add_part src n len b

  abbrev pub add_space : Buffer → Exec (Option Buffer)
  add_space b = add_part (cstring (codes " ")) 1 1 b

  -- The loop, over the arrays `fields[i]` and `values[i]`.
  unfoldable pub add_pairs : List (Bytes × Bytes) → Buffer → Exec (Option Buffer)
  add_pairs [] b = done (some b)
  add_pairs (p ∷ ps) b = then_some (add_space b) λ b.
      then_some (add_array p.0 field_id_size b)
        λ b. then_some (add_space b) λ b. then_some (add_array p.1 1024 b) λ b. add_pairs ps b

  -- The memory that is returned, `none` for NULL.
  unfoldable pub make_hmset_command :
      Option Bytes → Bytes → List (Bytes × Bytes) → Exec (Option Bytes)
  make_hmset_command none key pairs = done none
  make_hmset_command (some block) key pairs = Exec.◌>>=◌ (memset block buf_unit) λ c.
      Exec.◌>>=◌ (strncat c (cstring (codes "hmset")) 6) λ c.
        Exec.◌>>=◌ (strncat c (cstring (codes " ")) 1) λ c. Exec.◌>>=◌ (strncat c key 200) λ c.
          Exec.◌>>=◌ (add_pairs pairs (record { cmd = c; buf_size = buf_unit; use_size = 206 }))
            λ o. done (elim o [ none ↦ none | some b ↦ some b.cmd ])

  module _ (H : Hiredis) (conn : H.Context) where
    open H use {World}

    -- The command is a format of its own.
    abbrev send_table : Option Bytes → Action World ℤ
    send_table none = return minus_one
    send_table (some c) = do
      format ← lift (text_of c)
      reply ← call (H.command conn (cmd format []))
      reply ← lift (nonnull reply)
      str ← lift (nonnull reply.str)
      return (if not (equal str (codes "OK")) then minus_one else pos 0)

    unfoldable pub rop_create_or_replace_hash_table :
        Option Bytes → Bytes → List (Bytes × Bytes) → Action World ℤ
    rop_create_or_replace_hash_table malloc key pairs = do
      c ← lift (make_hmset_command malloc key pairs)
      send_table c
