-- ===== src/Usefull/Storage/Answers.antt =====
-- A run of one of the storage's programs, as the old process sees it.
use distributed_storage.Base.{◌≤◌, ◌≡◌, true, ◌++◌, length, drop, le→leb}
use distributed_storage.Clib.Exec.{done}
use distributed_storage.Clib.Strings.{Bytes}
use distributed_storage.Usefull.Storage.{put_read, read_child}
use distributed_storage.Usefull.System.{System, parent, writing}

-- The pipe is made, the process is duplicated, and once the program has ended the read gives its
-- output, of at most 256 bytes.
pub record Answers {W : Type 0} (S : System W) (w : W) (out : Bytes) (w' : W) : Type 0 where
  pub piped : W
  pub split : W
  pub opened : S.pipe w ≡ (true, piped)
  pub forked : S.fork piped ≡ (parent, split)
  pub reads : S.read 256 (S.wait (S.close writing split)) ≡ (out, w')
  pub short : length out ≤ 256

pub read_child-Answers :
    {W : Type 0} (S : System W) (w w' : W) (out buf : Bytes) (run : Answers S w out w')
    → length out ≤ length buf
    → read_child S 256 buf run.split ≡ done (out ++ drop (length out) buf, w')
unfolding read_child put_read
read_child-Answers S w w' out buf run le = rw (run.reads, le→leb (length out) (length buf) le)
