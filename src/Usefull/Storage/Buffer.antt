-- ===== src/Usefull/Storage/Buffer.antt =====
-- The memory for a form's body.
use distributed_storage.Base.{ℕ, ◌+◌, ◌<◌, ◌≡◌, some, arith, length, false, leb}
use distributed_storage.Clib.Append.{memset-whole}
use distributed_storage.Clib.Chars.{int_max}
use distributed_storage.Clib.Exec.{done}
use distributed_storage.Clib.Strings.{Bytes, zeros}
use distributed_storage.Usefull.Storage.{get_buf}
use distributed_storage.Usefull.System.{System}

not_over : (n : ℕ) → n < int_max → leb int_max n ≡ false
not_over n h = ground arith

pub get_buf-zeros :
    {W : Type 0} (S : System W) (len : ℕ) (block : Bytes) (w w' : W)
    → len < int_max
    → S.malloc (len + 1) w ≡ (some block, w')
    → length block ≡ len + 1
    → get_buf S len w ≡ done (some (zeros (len + 1)), w')
unfolding get_buf
get_buf-zeros S len block w w' lt given size =
    rw (not_over len lt, given, memset-whole block (len + 1) size)
