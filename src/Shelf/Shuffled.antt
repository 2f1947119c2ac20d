-- ===== src/Shelf/Shuffled.antt =====
-- Orders in which the commands of several processes reach the server.
use mathlib.Core.List.Perm
use distributed_storage.Base.{
  ℕ, suc, ◌+◌, ◌≡◌, refl, ap, sym, ◌∙◌, subst, List, [], ◌∷◌, ◌++◌, map, Perm, perm_middle,
  if◌then◌else◌, arith,
}
use distributed_storage.Clib.Strings.{Bytes, equal}
use distributed_storage.FileInfo.{FileInfo}
use distributed_storage.Shelf.{Shelf, add, visit}
use distributed_storage.Shelf.Traffic.{Event, uploaded, clicked, after}

-- LPUSH of a file's text, and ZINCRBY of an id.
pub data Act : Type 0 where
  pushes : FileInfo → Act
  counts : Bytes → Act

abbrev pub acts_of : Event → List Act
acts_of (uploaded info) = pushes info ∷ counts info.file_id ∷ []
acts_of (clicked id) = counts id ∷ []

abbrev pub push : FileInfo → Shelf → Shelf
push info shelf = record { files = info ∷ shelf.files; visits = shelf.visits }

abbrev pub performed : List Act → Shelf → Shelf
performed [] shelf = shelf
performed (pushes info ∷ acts) shelf = performed acts (push info shelf)
performed (counts id ∷ acts) shelf = performed acts (visit id shelf)

-- Two sequences, each in its order, and any number of them.
pub data Shuffle : List Act → List Act → List Act → Type 0 where
  empty : Shuffle [] [] []
  left : {xs ys zs : List Act} (x : Act) → Shuffle xs ys zs → Shuffle (x ∷ xs) ys (x ∷ zs)
  right : {xs ys zs : List Act} (y : Act) → Shuffle xs ys zs → Shuffle xs (y ∷ ys) (y ∷ zs)

pub data Merges : List (List Act) → List Act → Type 0 where
  no_process : Merges [] []
  process :
      {xs acts zs : List Act} {processes : List (List Act)}
      → Shuffle xs acts zs
      → Merges processes acts
      → Merges (xs ∷ processes) zs

-- How often the id is counted, and the files that are pushed.
abbrev counted : Bytes → List Act → ℕ
counted m [] = 0
counted m (pushes info ∷ acts) = counted m acts
counted m (counts id ∷ acts) = if equal m id then suc (counted m acts) else counted m acts

abbrev pushed : List Act → List FileInfo
pushed [] = []
pushed (pushes info ∷ acts) = info ∷ pushed acts
pushed (counts id ∷ acts) = pushed acts

performed-visits :
    (m : Bytes) (acts : List Act) (shelf : Shelf)
    → (performed acts shelf).visits m ≡ shelf.visits m + counted m acts
performed-visits m [] shelf = omega arith
performed-visits m (pushes info ∷ acts) shelf = performed-visits m acts (push info shelf)
performed-visits m (counts id ∷ acts) shelf =
    ground (arith, performed-visits m acts (visit id shelf))

performed-files :
    (acts : List Act) (shelf : Shelf)
    → Perm (performed acts shelf).files (pushed acts ++ shelf.files)
performed-files [] shelf = Perm.refl shelf.files
performed-files (pushes info ∷ acts) shelf =
    Perm.trans (performed-files acts (push info shelf)) (perm_middle (pushed acts) shelf.files)
performed-files (counts id ∷ acts) shelf = performed-files acts (visit id shelf)

Shuffle-counted :
    (m : Bytes) {xs ys zs : List Act}
    → Shuffle xs ys zs
    → counted m zs ≡ counted m xs + counted m ys
Shuffle-counted m empty = refl
Shuffle-counted m (left (pushes info) s) = Shuffle-counted m s
Shuffle-counted m (left (counts id) s) = ground (arith, Shuffle-counted m s)
Shuffle-counted m (right (pushes info) s) = Shuffle-counted m s
Shuffle-counted m (right (counts id) s) = ground (arith, Shuffle-counted m s)

Shuffle-pushed :
    {xs ys zs : List Act} → Shuffle xs ys zs → Perm (pushed zs) (pushed xs ++ pushed ys)
Shuffle-pushed empty = Perm.refl []
Shuffle-pushed (left (pushes info) s) = Perm.cons info (Shuffle-pushed s)
Shuffle-pushed (left (counts id) s) = Shuffle-pushed s
Shuffle-pushed {xs} (right {ys} (pushes info) s) =
    Perm.trans (Perm.cons info (Shuffle-pushed s)) (Perm.symm (perm_middle (pushed xs) (pushed ys)))
Shuffle-pushed (right (counts id) s) = Shuffle-pushed s

-- What each process does, one process behind the other.
abbrev pub in_turn : List (List Act) → List Act
in_turn [] = []
in_turn (xs ∷ processes) = xs ++ in_turn processes

counted-append : (m : Bytes) (xs ys : List Act) → counted m (xs ++ ys) ≡ counted m xs + counted m ys
counted-append m [] ys = omega arith
counted-append m (pushes info ∷ xs) ys = counted-append m xs ys
counted-append m (counts id ∷ xs) ys = ground (arith, counted-append m xs ys)

pushed-append : (xs ys : List Act) → pushed (xs ++ ys) ≡ pushed xs ++ pushed ys
pushed-append [] ys = refl
pushed-append (pushes info ∷ xs) ys = ap (◌∷◌ info) (pushed-append xs ys)
pushed-append (counts id ∷ xs) ys = pushed-append xs ys

Merges-counted :
    (m : Bytes) {processes : List (List Act)} {acts : List Act}
    → Merges processes acts
    → counted m acts ≡ counted m (in_turn processes)
Merges-counted m no_process = refl
Merges-counted m (process {xs} {processes} shuffled merged) = omega (
  arith,
  Shuffle-counted m shuffled,
  Merges-counted m merged,
  counted-append m xs (in_turn processes),
)

Merges-pushed :
    {processes : List (List Act)} {acts : List Act}
    → Merges processes acts
    → Perm (pushed acts) (pushed (in_turn processes))
Merges-pushed no_process = Perm.refl []
Merges-pushed (process {xs} {processes} shuffled merged) =
    rw (pushed-append xs (in_turn processes))
      (Perm.trans (Shuffle-pushed shuffled) (Perm.append_left (pushed xs) (Merges-pushed merged)))

performed-in_turn :
    (events : List Event) (shelf : Shelf)
    → performed (in_turn (map acts_of events)) shelf ≡ after events shelf
performed-in_turn [] shelf = refl
performed-in_turn (uploaded info ∷ events) shelf = performed-in_turn events (add info shelf)
performed-in_turn (clicked id ∷ events) shelf = performed-in_turn events (visit id shelf)

-- In whatever order the commands come, the visits and the files are those of one process behind the other, the
-- files up to their order.
pub performed-after :
    (events : List Event) (acts : List Act) (shelf : Shelf)
    → Merges (map acts_of events) acts
    → ((m : Bytes) → (performed acts shelf).visits m ≡ (after events shelf).visits m)
      × Perm (performed acts shelf).files (after events shelf).files
performed-after events acts shelf merged =
    let turns = in_turn (map acts_of events) in
    let same = performed-in_turn events shelf in
    (
      λ m.
          performed-visits m acts shelf
          ∙ ap (λ n. shelf.visits m + n) (Merges-counted m merged)
          ∙ sym (performed-visits m turns shelf)
          ∙ ap (λ s. s.visits m) same,
      subst (λ s. Perm (performed acts shelf).files s.files) same
          (Perm.trans (performed-files acts shelf) (
            Perm.trans (Perm.append_right shelf.files (Merges-pushed merged))
              (Perm.symm (performed-files turns shelf)))),
    )
