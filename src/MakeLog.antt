-- ===== src/MakeLog.antt =====
-- src/make_log.c: the directories and the file of a message, and its line. The file system is an
-- interface. The message is given as `vsprintf` formats it, the time as `localtime` gives it.
pub mod Created
pub mod Line
use distributed_storage.Base.{ℕ, ◌+◌, List, [], ◌∷◌, ◌++◌, Bool, not, if◌then◌else◌, ℤ, pos, length}
use distributed_storage.Clib.Exec.{Exec, done, ◌>>=◌}
use distributed_storage.Clib.Print.{digits_of, zero_padded, sprintf, snprintf}
use distributed_storage.Clib.Strings.{Bytes, codes}

-- `access(path, 0) != -1`, and `mkdir(path, 0777) != -1` with the new state. `open`, with the flags to
-- make the file and to append, gives a descriptor or -1; `write` gives how many bytes it wrote or -1.
pub record FileSystem : Type 1 where
  pub Files : Type 0
  pub exists : Bytes → Files → Bool
  pub mkdir : Bytes → Files → Bool × Files
  pub open_append : Bytes → Files → ℤ × Files
  pub write : ℤ → Bytes → Files → ℤ × Files
  pub close : ℤ → Files → Files

-- `struct tm`, of a time since 1900.
pub record Tm : Type 0 where
  pub tm_year : ℕ
  pub tm_mon : ℕ
  pub tm_mday : ℕ
  pub tm_hour : ℕ
  pub tm_min : ℕ
  pub tm_sec : ℕ

abbrev pub year : Tm → Bytes
year now = zero_padded 4 (now.tm_year + 1900)

abbrev pub month : Tm → Bytes
month now = zero_padded 2 (now.tm_mon + 1)

abbrev pub day : Tm → Bytes
day now = zero_padded 2 now.tm_mday

abbrev pub slash : Bytes
slash = codes "/"

abbrev pub top_dir : Bytes
top_dir = codes "."

abbrev pub second_dir : Bytes
second_dir = codes "./logs"

abbrev pub third_dir : Bytes → Bytes
third_dir module_name = second_dir ++ slash ++ module_name

abbrev pub y_dir : Bytes → Tm → Bytes
y_dir module_name now = third_dir module_name ++ slash ++ year now ++ slash

abbrev pub m_dir : Bytes → Tm → Bytes
m_dir module_name now = y_dir module_name now ++ slash ++ month now ++ slash

abbrev pub d_dir : Bytes → Tm → Bytes
d_dir module_name now = m_dir module_name now ++ slash ++ day now ++ slash

abbrev pub directories : Bytes → Tm → List Bytes
directories module_name now =
    top_dir
    ∷ second_dir
    ∷ third_dir module_name
    ∷ y_dir module_name now
    ∷ m_dir module_name now
    ∷ []

-- "./logs/%s/%04d/%02d/%s-%02d.log"
abbrev pub path_text : Bytes → Bytes → Tm → Bytes
path_text module_name proc_name now =
    codes "./logs/"
    ++ module_name
    ++ slash
    ++ year now
    ++ slash
    ++ month now
    ++ slash
    ++ proc_name
    ++ codes "-"
    ++ day now
    ++ codes ".log"

-- "===%04d%02d%02d-%02d%02d%02d,%s[%d]=== %s\n"
abbrev pub line_text : Tm → Bytes → ℕ → Bytes → Bytes
line_text now funcname line mesg =
    codes "==="
    ++ year now
    ++ month now
    ++ day now
    ++ codes "-"
    ++ zero_padded 2 now.tm_hour
    ++ zero_padded 2 now.tm_min
    ++ zero_padded 2 now.tm_sec
    ++ codes ","
    ++ funcname
    ++ codes "["
    ++ digits_of line
    ++ codes "]=== "
    ++ mesg
    ++ codes "\n"

module _ (F : FileSystem) where
  open F use {Files}

  -- A chain of `if(mkdir(...) == -1) ... else if(mkdir(...) == -1) ...`: it ends at the first
  -- directory that cannot be made.
  unfoldable pub make_dirs : List Bytes → Files → Files
  make_dirs [] fs = fs
  make_dirs (d ∷ ds) fs =
      let r = F.mkdir d fs in let rest = make_dirs ds r.1 in if r.0 then rest else r.1

  -- The ladder of `access`: from the first directory that is not there, all below it are made.
  unfoldable pub make_missing : List Bytes → Files → Files
  make_missing [] fs = fs
  make_missing (d ∷ ds) fs =
      let below = make_missing ds fs in
      let made = make_dirs (d ∷ ds) fs in if not (F.exists d fs) then made else below

  -- The path and the state behind the ladder. The names of the directories are put into arrays of
  -- 1024 bytes.
  unfoldable pub make_path : Bytes → Bytes → Tm → Files → Exec (Bytes × Files)
  make_path module_name proc_name now fs = do
    third ← sprintf 1024 (third_dir module_name)
    y ← sprintf 1024 (y_dir module_name now)
    m ← sprintf 1024 (m_dir module_name now)
    d ← sprintf 1024 (d_dir module_name now)
    done (
      snprintf 1024 (path_text module_name proc_name now),
      make_missing (directories module_name now) fs,
    )

  -- The file is closed, and the result is 0, whether the text was written or not.
  unfoldable pub out_put_file : Bytes → Bytes → Files → ℤ × Files
  out_put_file path buf fs =
      let opened = F.open_append path fs in
      let written = F.write opened.0 buf opened.1 in (pos 0, F.close opened.0 written.1)

  -- `now` is the time of the line, `later` the one that `make_path` asks for. The lock is taken round
  -- the write alone.
  unfoldable pub dumpmsg_to_file :
      Bytes → Bytes → ℕ → Bytes → Bytes → Tm → Tm → Files → Exec (ℤ × Files)
  dumpmsg_to_file module_name proc_name line funcname text now later fs = do
    mesg ← sprintf 4096 text
    let buf = snprintf 4096 (line_text now funcname line mesg)
    r ← make_path module_name proc_name later fs
    done (pos 0, (out_put_file r.0 buf r.1).1)
