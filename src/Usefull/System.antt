-- ===== src/Usefull/System.antt =====
-- The calls of the operating system that src/usefull.c makes to run another program and to read its
-- output through a pipe: an interface over a state of its own, which also holds the pipe.
use distributed_storage.Base.{ℕ, Option, List, Bool}
use distributed_storage.Clib.Strings.{Bytes}

-- What `fork` returns: an error, or 0 in the new process, or the number of that process.
pub data Forked : Type 0 where
  refused child parent : Forked

-- The two ends of the pipe, `pfd[0]` and `pfd[1]`.
pub data End : Type 0 where
  reading writing : End

-- `pipe` says whether it succeeds. `exec` gives the exit status of the program that takes the place of
-- this one, by its name and arguments, or `none` where it returns. `read` gives the bytes that it
-- puts into the array, at most as many as it is asked for. `save` makes a file of a name and its bytes.
pub record System (W : Type 0) : Type 0 where
  pub pipe : W → Bool × W
  pub fork : W → Forked × W
  pub close : End → W → W
  pub dup : W → W
  pub exec : Bytes → List Bytes → W → Option ℕ × W
  pub wait : W → W
  pub read : ℕ → W → Bytes × W
  pub malloc : ℕ → W → Option Bytes × W
  pub save : Bytes → Bytes → W → W
  pub unlink : Bytes → W → W
