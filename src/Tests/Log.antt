-- ===== src/Tests/Log.antt =====
-- src/make_log.c on a file system in which every directory is there once one was made.
use distributed_storage.Base.{
  ◌≡◌, Bool, true, false, refl, Option, none, some, ap, ◌++◌, if◌then◌else◌, pos, minus_one, length,
  take, arith, ℤ, [],
}
use distributed_storage.Clib.Exec.{done}
use distributed_storage.Clib.Print.{decimal, repeat}
use distributed_storage.Clib.Search.{equal_self}
use distributed_storage.Clib.Strings.{Bytes, codes, equal}
use distributed_storage.MakeLog.{FileSystem, Tm, dumpmsg_to_file, path_text, line_text}
use distributed_storage.MakeLog.Line.{FileLaws, dumpmsg_to_file-appends}

-- Whether a directory was made, the name of the open file, and the files.
abbrev Disk : Type 0
Disk = Bool × Option Bytes × (Bytes → Bytes)

abbrev disk_write : Option Bytes → Bytes → Disk → ℤ × Disk
disk_write none text fs = (minus_one, fs)
disk_write (some p) text fs =
    (pos (length text), (fs.0, fs.1, λ q. if equal q p then fs.2 q ++ text else fs.2 q))

abbrev disk : FileSystem
disk = record {
  Files = Disk;
  exists = λ d fs. fs.0;
  mkdir = λ d fs. (true, (true, fs.1, fs.2));
  open_append = λ p fs. (pos 3, (fs.0, some p, fs.2));
  write = λ fd text fs. disk_write fs.1 text fs;
  close = λ fd fs. (fs.0, none, fs.2);
}

unfoldable disk-FileLaws : FileLaws disk
disk-FileLaws = record {
  of_mkdir = record { makes = λ d fs h. refl; keeps = λ d e fs h. refl };
  contents = λ p fs. fs.2 p;
  target = λ fd fs. fs.1;
  Allows = λ fs. Unit;
  mkdir_allows = λ d fs h. tt;
  mkdir_contents = λ d p fs. refl;
  doubled = λ a b fs. refl;
  opens = λ d name fs there is_name h.
      (pos 3, (fs.0, some (d ++ codes "/" ++ name), fs.2), refl, refl, refl, tt);
  writes = λ fd p text fs e h. (
    (fs.0, fs.1, λ q. if equal q p then fs.2 q ++ text else fs.2 q),
    ap (λ o. disk_write o text fs) e,
    rw (equal_self p),
  );
  closes = λ fd p fs. refl;
}

abbrev now : Tm
now = record { tm_year = 126; tm_mon = 0; tm_mday = 9; tm_hour = 9; tm_min = 5; tm_sec = 30 }

abbrev empty_disk : Disk
empty_disk = (false, none, λ p. [])

abbrev path : Bytes
path = codes "./logs/cgi/2026/01/data-09.log"

path-runs : path_text (codes "cgi") (codes "data") now ≡ path
path-runs = unfold decimal repeat in refl

line-runs :
    line_text now (codes "main") 42 (codes "ok") ≡ codes "===20260109-090530,main[42]=== ok\n"
line-runs = unfold decimal repeat in refl

dumpmsg_to_file-appends_example :
    (fs' : Disk) × (dumpmsg_to_file disk
        (codes "cgi")
        (codes "data")
        42
        (codes "main")
        (codes "ok")
        now
        now
        empty_disk
      ≡ done (pos 0, fs'))
    × (fs'.2 (path_text (codes "cgi") (codes "data") now)
        ≡ take 4095 (line_text now (codes "main") 42 (codes "ok")))
unfolding decimal repeat disk-FileLaws
dumpmsg_to_file-appends_example =
    dumpmsg_to_file-appends disk disk-FileLaws (codes "cgi") (codes "data") now 42 (codes "main")
      (codes "ok") now empty_disk (omega arith) (omega arith) (omega arith) ((λ e. cc), omega arith)
      (refl, (refl, (refl, (refl, (refl, tt))))) tt
