-- ===== src/MakeLog/Line.antt =====
-- The line of a message in the file of its day.
use distributed_storage.Base.{
  ℕ, ◌<◌, ◌≡◌, ◌≢◌, refl, ap, sym, ◌∙◌, true, ◌++◌, [], Option, some, All, ℤ, pos, length, arith,
  take, take-short, lt→ltb, append_assoc, subst,
}
use distributed_storage.Clib.Exec.{done}
use distributed_storage.Clib.Print.{sprintf}
use distributed_storage.Clib.Strings.{Bytes, codes}
use distributed_storage.MakeLog.{
  FileSystem, Tm, make_missing, out_put_file, dumpmsg_to_file, directories, path_text, line_text,
  third_dir, m_dir, d_dir, slash, year, month, day,
}
use distributed_storage.MakeLog.Created.{MkdirLaws, CanMake, make_path-creates, make_missing-keeps}

-- A name inside a directory.
abbrev pub IsName : Bytes → Type 0
IsName name = (name ≢ []) × All (λ c. (c ≢ 0) × (c ≢ b'/')) name

-- What the files hold, and which file a descriptor is for. In a directory that is there `open` makes the
-- file or finds it, `write` puts all bytes behind what the file holds, and nothing else changes a file. They
-- need a free descriptor, permission, and room on the disk, which `mkdir` leaves to them. Two slashes
-- in a name are one.
pub record FileLaws (F : FileSystem) : Type 1 where
  pub of_mkdir : MkdirLaws F
  pub contents : Bytes → F.Files → Bytes
  pub target : ℤ → F.Files → Option Bytes
  pub Allows : F.Files → Type 0
  pub mkdir_allows : (d : Bytes) (fs : F.Files) → Allows fs → Allows (F.mkdir d fs).1
  pub mkdir_contents : (d p : Bytes) (fs : F.Files) → contents p (F.mkdir d fs).1 ≡ contents p fs
  pub doubled :
      (a b : Bytes) (fs : F.Files)
      → F.exists (a ++ slash ++ b) fs ≡ F.exists (a ++ slash ++ slash ++ b) fs
  pub opens :
      (d name : Bytes) (fs : F.Files)
      → F.exists (d ++ slash) fs ≡ true
      → IsName name
      → Allows fs
      → (fd : ℤ) × (fs' : F.Files) × (F.open_append (d ++ slash ++ name) fs ≡ (fd, fs'))
        × (target fd fs' ≡ some (d ++ slash ++ name))
        × (contents (d ++ slash ++ name) fs' ≡ contents (d ++ slash ++ name) fs)
        × Allows fs'
  pub writes :
      (fd : ℤ) (p text : Bytes) (fs : F.Files)
      → target fd fs ≡ some p
      → Allows fs
      → (fs' : F.Files) × (F.write fd text fs ≡ (pos (length text), fs'))
        × (contents p fs' ≡ contents p fs ++ text)
  pub closes : (fd : ℤ) (p : Bytes) (fs : F.Files) → contents p (F.close fd fs) ≡ contents p fs

module _ (F : FileSystem) (laws : FileLaws F) where
  open F use {Files}

  -- In a directory that is there the text is put behind what the file holds.
  out_put_file-appends :
      (d name text : Bytes) (fs : Files)
      → F.exists (d ++ slash) fs ≡ true
      → IsName name
      → laws.Allows fs
      → (fs' : Files) × (out_put_file F (d ++ slash ++ name) text fs ≡ (pos 0, fs'))
        × (laws.contents (d ++ slash ++ name) fs' ≡ laws.contents (d ++ slash ++ name) fs ++ text)
  unfolding out_put_file
  out_put_file-appends d name text fs there is_name allows =
      let (fd, fs₁, opened, target, same, allows₁) = laws.opens d name fs there is_name allows in
      let (fs₂, written, more) = laws.writes fd (d ++ slash ++ name) text fs₁ target allows₁ in
      (
        F.close fd fs₂,
        rw (opened, written),
        laws.closes fd (d ++ slash ++ name) fs₂ ∙ more ∙ ap (λ t. t ++ text) same,
      )

  module _ (module_name proc_name : Bytes) (later : Tm) where
    abbrev pub month_dir : Bytes
    month_dir = third_dir module_name ++ slash ++ year later ++ slash ++ month later

    abbrev pub file_name : Bytes
    file_name = proc_name ++ codes "-" ++ day later ++ codes ".log"

    path-month_dir : path_text module_name proc_name later ≡ month_dir ++ slash ++ file_name
    path-month_dir = simp append_assoc

    -- The name that the ladder uses has two slashes.
    month_dir-there :
        (fs : Files)
        → F.exists (m_dir module_name later) fs ≡ true
        → F.exists (month_dir ++ slash) fs ≡ true
    month_dir-there fs there =
        let front = third_dir module_name ++ slash ++ year later in
        let tail = month later ++ slash in
        let one : month_dir ++ slash ≡ front ++ slash ++ tail = simp append_assoc in
        let two : front ++ slash ++ slash ++ tail ≡ m_dir module_name later = simp append_assoc in
        ap (λ d. F.exists d fs) one
        ∙ laws.doubled front tail fs
        ∙ ap (λ d. F.exists d fs) two
        ∙ there

    -- A message is put as one line behind what the file of its module, its program and the day holds,
    -- cut to 4095 bytes, and the result is 0, whichever of the directories were there before. The message
    -- is shorter than 4096 bytes, the names of the directories and of the file than 1024, the program's
    -- name has no '/', no `mkdir` fails, and the file may be opened and has room.
    pub dumpmsg_to_file-appends :
        (line : ℕ) (funcname text : Bytes) (now : Tm) (fs : Files)
        → length text < 4096
        → length (d_dir module_name later) < 1024
        → length (path_text module_name proc_name later) < 1024
        → IsName file_name
        → CanMake F laws.of_mkdir (directories module_name later) fs
        → laws.Allows fs
        → (fs' : Files) × (dumpmsg_to_file F module_name proc_name line funcname text now later fs
            ≡ done (pos 0, fs'))
          × (laws.contents (path_text module_name proc_name later) fs'
              ≡ laws.contents (path_text module_name proc_name later) fs
                ++ take 4095 (line_text now funcname line text))
    unfolding dumpmsg_to_file sprintf
    dumpmsg_to_file-appends line funcname text now fs short room path_room is_name can allows =
        let path = path_text module_name proc_name later in
        let buf = take 4095 (line_text now funcname line text) in
        let (g, made, there, is) =
          make_path-creates F laws.of_mkdir module_name proc_name later fs room can in
        let (allows_g, same) = kept g is in
        let (fs', put, more) =
          out_put_file-appends month_dir file_name buf g (month_dir-there g there.1.1.1.1.0) is_name
            allows_g in
        let cut : take 1023 path ≡ path = take-short 1023 path (omega (arith, path_room)) in
        let written : out_put_file F path buf g ≡ (pos 0, fs') =
          ap (λ p. out_put_file F p buf g) path-month_dir ∙ put in
        let behind : laws.contents path fs' ≡ laws.contents path g ++ buf =
          ap (λ p. laws.contents p fs') path-month_dir
          ∙ more
          ∙ ap (λ p. laws.contents p g ++ buf) (sym path-month_dir) in
        (
          fs',
          rw (lt→ltb (length text) 4096 short, made, cut, written),
          behind ∙ ap (λ t. t ++ buf) same,
        )
      where
        Kept : Files → Type 0
        Kept g =
            laws.Allows g
            × (laws.contents (path_text module_name proc_name later) g
                ≡ laws.contents (path_text module_name proc_name later) fs)

        keep : (d : Bytes) (g : Files) → Kept g → Kept (F.mkdir d g).1
        keep d g h = (
          laws.mkdir_allows d g h.0,
          laws.mkdir_contents d (path_text module_name proc_name later) g ∙ h.1,
        )

        kept : (g : Files) → g ≡ make_missing F (directories module_name later) fs → Kept g
        kept g is =
            subst Kept (sym is)
              (make_missing-keeps F Kept keep (directories module_name later) fs (allows, refl))
