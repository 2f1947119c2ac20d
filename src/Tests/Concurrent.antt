-- ===== src/Tests/Concurrent.antt =====
-- Commands of two processes between each other, and a page in the middle of an upload.
use distributed_storage.Base.{◌≡◌, refl, some, List, [], ◌∷◌, ◌++◌, pos, arith}
use distributed_storage.Clib.Exec.{done}
use distributed_storage.Clib.Strings.{Bytes, codes, zeros, starts_with}
use distributed_storage.DataUse.Listing.{read_redis_to_json}
use distributed_storage.FileInfo.{FileInfo, print}
use distributed_storage.Shelf.{Shelf, Holds, one_more}
use distributed_storage.Shelf.Scores.{host_of, page_of, score_of, read_redis_to_json-scores}
use distributed_storage.Shelf.Processes.{visits}
use distributed_storage.Shelf.Shuffled.{Act, pushes, counts}
use distributed_storage.Shelf.Traffic.{Event, uploaded, clicked}
use distributed_storage.Tests.Redis.{World, redis, redis-ServerLaws, connected}
use distributed_storage.Tests.Shelf.{picture_file, picture_file-IsPresentable}
use distributed_storage.Tests.Staged.{plain}
use distributed_storage.Usefull.Suffix.Spec.{suffix_of}

abbrev id : Bytes
id = codes "g1/M"

abbrev events : List Event
events = uploaded picture_file ∷ clicked id ∷ []

-- The visit comes between the two commands of the upload.
abbrev acts : List Act
acts = pushes picture_file ∷ counts id ∷ counts id ∷ []

abbrev nothing : World
nothing = ([], λ m. 0)

abbrev after_push : World
after_push = (print picture_file ∷ [], λ m. 0)

abbrev at_end : World
at_end = (print picture_file ∷ [], one_more id (one_more id (λ m. 0)))

abbrev time_array : Bytes
time_array = codes "9:30" ++ 0 ∷ 0 ∷ []

-- The file was pushed, and not counted yet.
abbrev half : Shelf
half = record { files = picture_file ∷ []; visits = λ m. 0 }

half-Holds : Holds redis tt redis-ServerLaws half after_push
unfolding redis-ServerLaws
half-Holds = record { files = refl; visits = λ m. refl }

read_redis_to_json-scores_example :
    read_redis_to_json redis plain (pos 0) (pos 2) (zeros 1024 ∷ zeros 1024 ∷ []) after_push
    ≡ done ((pos 0, some (page_of plain (λ m. score_of 0) (picture_file ∷ []))), after_push)
unfolding host_of starts_with suffix_of
read_redis_to_json-scores_example =
    read_redis_to_json-scores redis plain tt redis-ServerLaws half 0 2 (omega arith) (omega arith)
      (omega arith)
      (
        record {
          rest = picture_file-IsPresentable.rest;
          is_listed = picture_file-IsPresentable.is_listed;
          fits = omega arith;
          bounded = omega arith;
        },
        tt,
      )
      (zeros 1024 ∷ zeros 1024 ∷ []) after_push after_push (omega arith, (omega arith, tt))
      (omega arith) (connected after_push) half-Holds
