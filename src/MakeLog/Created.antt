-- ===== src/MakeLog/Created.antt =====
-- After `make_path` every directory of the log file's path is there.
use distributed_storage.Base.{
  ℕ, ◌≤◌, List, [], ◌∷◌, ◌++◌, ◌≡◌, ◌<◌, refl, sym, true, Bool-cases, inl, inr, All, if◌then◌else◌,
  length, length-append, arith, lt→ltb,
}
use distributed_storage.Clib.Exec.{done}
use distributed_storage.Clib.Print.{sprintf, snprintf}
use distributed_storage.Clib.Strings.{Bytes}
use distributed_storage.MakeLog.{
  FileSystem, Tm, make_dirs, make_missing, make_path, directories, path_text, third_dir, y_dir,
  m_dir, d_dir, slash, year, month, day,
}

-- What `mkdir` promises where it succeeds: the directory is there, and none is lost.
pub record MkdirLaws (F : FileSystem) : Type 0 where
  pub makes :
      (d : Bytes) (fs : F.Files) → (F.mkdir d fs).0 ≡ true → F.exists d (F.mkdir d fs).1 ≡ true
  pub keeps :
      (d e : Bytes) (fs : F.Files) → F.exists e fs ≡ true → F.exists e (F.mkdir d fs).1 ≡ true

-- What no `mkdir` changes, the whole ladder does not change.
module _ (F : FileSystem) (P : F.Files → Type 0)
    (keep : (d : Bytes) (fs : F.Files) → P fs → P (F.mkdir d fs).1) where
  open F use {Files}

  pub make_dirs-keeps : (ds : List Bytes) (fs : Files) → P fs → P (make_dirs F ds fs)
  unfolding make_dirs
  make_dirs-keeps [] fs h = h
  make_dirs-keeps (d ∷ ds) fs h = elim (Bool-cases (F.mkdir d fs).0) [
    | inl made ↦ rw made (make_dirs-keeps ds (F.mkdir d fs).1 (keep d fs h))
    | inr failed ↦ rw failed (keep d fs h)
  ]

  pub make_missing-keeps : (ds : List Bytes) (fs : Files) → P fs → P (make_missing F ds fs)
  unfolding make_missing
  make_missing-keeps [] fs h = h
  make_missing-keeps (d ∷ ds) fs h = elim (Bool-cases (F.exists d fs)) [
    | inl there ↦ rw there (make_missing-keeps ds fs h)
    | inr missing ↦ rw missing (make_dirs-keeps (d ∷ ds) fs h)
  ]

longer_front : (x y t z : Bytes) → length x ≤ length (x ++ y ++ t ++ z)
longer_front x y t z =
    omega (arith, length-append (x ++ y ++ t) z, length-append (x ++ y) t, length-append x y)

lt_trans : {a b n : ℕ} → a ≤ b → b < n → a < n
lt_trans le lt = omega arith

module _ (F : FileSystem) (laws : MkdirLaws F) where
  open F use {Files}

  abbrev IsThere : Bytes → Files → Type 0
  IsThere d fs = F.exists d fs ≡ true

  -- The chain of `mkdir` on these directories meets no failure.
  abbrev pub Makes : List Bytes → Files → Type 0
  Makes [] fs = Unit
  Makes (d ∷ ds) fs = ((F.mkdir d fs).0 ≡ true) × Makes ds (F.mkdir d fs).1

  make_dirs-All :
      (ds : List Bytes) (fs g : Files)
      → Makes ds fs
      → make_dirs F ds fs ≡ g
      → All (λ d. F.exists d g ≡ true) ds
  unfolding make_dirs
  make_dirs-All [] fs g h e = tt
  make_dirs-All (d ∷ ds) fs g h e =
      let next : make_dirs F ds (F.mkdir d fs).1 ≡ g = rw h.0 at e in
      (
        rw (sym next) (
            make_dirs-keeps F (IsThere d) (λ e. laws.keeps e d) ds (F.mkdir d fs).1
              (laws.makes d fs h.0)),
        make_dirs-All ds (F.mkdir d fs).1 g h.1 next,
      )

  -- From the first directory that is not there, the chain meets no failure.
  abbrev pub CanMake : List Bytes → Files → Type 0
  CanMake [] fs = Unit
  CanMake (d ∷ ds) fs = if F.exists d fs then CanMake ds fs else Makes (d ∷ ds) fs

  make_missing-All :
      (ds : List Bytes) (fs g : Files)
      → CanMake ds fs
      → make_missing F ds fs ≡ g
      → All (λ d. F.exists d g ≡ true) ds
  unfolding make_missing
  make_missing-All [] fs g h e = tt
  make_missing-All (d ∷ ds) fs g h e = elim (Bool-cases (F.exists d fs)) [
    | inl there ↦
        let next : make_missing F ds fs ≡ g = rw there at e in
        (
          rw (sym next) (make_missing-keeps F (IsThere d) (λ e. laws.keeps e d) ds fs there),
          make_missing-All ds fs g (rw there at h) next,
        )
    | inr missing ↦ make_dirs-All (d ∷ ds) fs g (rw missing at h) (rw missing at e)
  ]

  -- The names of the directories fit into their arrays if the last one does.
  make_path-fits :
      (module_name proc_name : Bytes) (now : Tm) (fs : Files)
      → length (d_dir module_name now) < 1024
      → make_path F module_name proc_name now fs
        ≡ done (
          snprintf 1024 (path_text module_name proc_name now),
          make_missing F (directories module_name now) fs,
        )
  unfolding make_path sprintf
  make_path-fits module_name proc_name now fs fits =
      let third = third_dir module_name in
      let y = y_dir module_name now in
      let m = m_dir module_name now in
      let d = d_dir module_name now in
      let y_fits = longer_front third slash (year now) slash in
      let m_fits = longer_front y slash (month now) slash in
      let d_fits = longer_front m slash (day now) slash in
      let m_lt : length m < 1024 = lt_trans d_fits fits in
      let y_lt : length y < 1024 = lt_trans m_fits m_lt in
      rw (
        lt→ltb (length third) 1024 (lt_trans y_fits y_lt),
        lt→ltb (length y) 1024 y_lt,
        lt→ltb (length m) 1024 m_lt,
        lt→ltb (length d) 1024 fits,
      )

  -- Whichever of the five directories were there before, all of them are there after `make_path`,
  -- provided no `mkdir` fails from the first one that was not there, and the names fit into their
  -- arrays.
  pub make_path-creates :
      (module_name proc_name : Bytes) (now : Tm) (fs : Files)
      → length (d_dir module_name now) < 1024
      → CanMake (directories module_name now) fs
      → (g : Files) × (make_path F module_name proc_name now fs
          ≡ done (snprintf 1024 (path_text module_name proc_name now), g))
        × All (λ d. F.exists d g ≡ true) (directories module_name now)
        × (g ≡ make_missing F (directories module_name now) fs)
  make_path-creates module_name proc_name now fs fits h = (
    make_missing F (directories module_name now) fs,
    make_path-fits module_name proc_name now fs fits,
    make_missing-All (directories module_name now) fs
        (make_missing F (directories module_name now) fs) h refl,
    refl,
  )
