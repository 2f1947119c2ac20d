-- ===== src/Usefull/Storage/Client.antt =====
-- `fdfs_client` on the output of the storage's program, and what it does without one.
use distributed_storage.Base.{
  ℕ, suc, ◌-◌, ◌<◌, ◌≡◌, ap, ◌∙◌, true, [], ◌∷◌, ◌++◌, length, drop, pos, if◌then◌else◌, Bool-cases,
  inl, inr,
}
use distributed_storage.Clib.Copy.{drop-zeros, padded-suc}
use distributed_storage.Clib.Exec.{done, fault}
use distributed_storage.Clib.Strings.{Bytes, zeros}
use distributed_storage.Usefull.Storage.{
  fdfs_client, fdfs_forked, fdfs_parent, read_child, put_read,
}
use distributed_storage.Usefull.Storage.Answers.{Answers, read_child-Answers}
use distributed_storage.Usefull.System.{System, refused, writing}
use distributed_storage.Usefull.TrimSpace.{may_copy}
use distributed_storage.Usefull.TrimSpace.Spaced.{IsSpaced, trim_space-IsSpaced}
use distributed_storage.Usefull.TrimSpace.Trims.{trim_space-nil}

module _ {W : Type 0} (S : System W) where
  -- The bytes behind the file's id, when the program printed `out`.
  abbrev pub left_behind : Bytes → Bytes → Bytes
  left_behind id out = drop (suc (length id)) (out ++ 0 ∷ zeros (256 - length out - 1))

  -- Where the storage's program prints the file's id with spaces around it, in fewer than 256
  -- bytes, fdfs_client returns 0 and puts the id into its cleared array, if there is no space in
  -- front of the id or as many as it has bytes; otherwise trim_space copies between parts of the
  -- array that overlap, which is undefined. The id is not empty and neither begins nor ends with a
  -- space; the pipe is made and the process is duplicated.
  pub fdfs_client-id :
      (a m : Bytes) (y : ℕ) (z s_filename : Bytes) (w w' : W)
      → IsSpaced a m y z
      → Answers S w (a ++ (m ++ y ∷ z)) w'
      → length (a ++ (m ++ y ∷ z)) < 256
      → fdfs_client S s_filename (zeros 256) w ≡ (
          if may_copy (length a) (length (m ++ y ∷ []))
          then done
              ((pos 0, (m ++ y ∷ []) ++ 0 ∷ left_behind (m ++ y ∷ []) (a ++ (m ++ y ∷ z))), w')
          else fault)
  unfolding fdfs_client fdfs_forked fdfs_parent
  fdfs_client-id a m y z s_filename w w' ok run short =
      let out = a ++ (m ++ y ∷ z) in
      let read = read_child-Answers S w w' out (zeros 256) run run.short in
      let text : out ++ drop (length out) (zeros 256) ≡ out ++ 0 ∷ zeros (256 - length out - 1) =
        ap (λ t. out ++ t) (drop-zeros (length out) 256) ∙ padded-suc 256 out short in
      rw
        (
          run.opened,
          run.forked,
          read,
          text,
          trim_space-IsSpaced a m y z ok (zeros (256 - length out - 1)),
        )
        (elim (Bool-cases (may_copy (length a) (length (m ++ y ∷ [])))) [
          | inl free ↦ rw free
          | inr shared ↦ rw shared
        ])

  -- An error of `fork` is noted and not treated: the pipe has no writer, nothing is read, and the loop of
  -- `trim_space` reads in front of the array.
  pub fdfs_client-refused :
      (s_filename : Bytes) (w w₁ w₂ w₃ : W)
      → S.pipe w ≡ (true, w₁)
      → S.fork w₁ ≡ (refused, w₂)
      → S.read 256 (S.wait (S.close writing w₂)) ≡ ([], w₃)
      → fdfs_client S s_filename (zeros 256) w ≡ fault
  unfolding fdfs_client fdfs_forked fdfs_parent read_child put_read
  fdfs_client-refused s_filename w w₁ w₂ w₃ opened forked reads =
      rw (opened, forked, reads, trim_space-nil (zeros 255))
