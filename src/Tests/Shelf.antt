-- ===== src/Tests/Shelf.antt =====
-- The shelf on the server of Tests/Redis.
use distributed_storage.Base.{◌≡◌, refl, some, [], ◌∷◌, ◌++◌, arith}
use distributed_storage.Clib.Exec.{done}
use distributed_storage.Clib.Strings.{codes, zeros, starts_with}
use distributed_storage.Clib.First.{is_absent, is_absent-Absent}
use distributed_storage.DataUse.IpUrl.Prefix.{group}
use distributed_storage.FileInfo.{FileInfo, IsStored, print}
use distributed_storage.Usefull.Suffix.Spec.{suffix_of, after_dot, or_null}
use distributed_storage.Shelf.Shows.{IsShown, page_text}
use distributed_storage.Shelf.Scores.{IsPresentable, host_of}
use distributed_storage.Shelf.{Shelf, Holds}
use distributed_storage.Programs.DataCgi as DataCgi
use distributed_storage.Programs.DataCgi.Fresh as Fresh
use distributed_storage.Programs.DataCgi.NewFile.{list_request, list_arrays}
use distributed_storage.Programs.DataCgi.Increase.{click_request, click_arrays, IsPart}
use distributed_storage.Base.{◌⊎◌}
use distributed_storage.Programs.DataCgi.Reads.{Counted}
use distributed_storage.Shelf.Connects.{Keeps}
use distributed_storage.Programs.DataCgi.AnyRequest.{handle-Counted}
use distributed_storage.Programs.DataCgi.Shown.{handle-page, handle-visit}
use distributed_storage.Shelf.{visit}
use distributed_storage.Base.{none}
use distributed_storage.Tests.Staged.{plain}
use distributed_storage.Tests.Redis.{World, redis, redis-ServerLaws, redis-ReadLaws, connected}

abbrev pub picture_file : FileInfo
picture_file = record {
  file_id = codes "g1/M";
  url = codes "h/group1/M";
  filename = codes "a.jpg";
  create_time = codes "9:30";
  user = codes "me";
  kind = codes "jpg";
}

pub picture_file-IsStored : IsStored picture_file
picture_file-IsStored = record {
  fields = (omega arith, (omega arith, (omega arith, (omega arith, (omega arith, tt)))));
  kind_clean = omega arith;
  url_ne_nil = λ e. cc;
  filename_ne_nil = λ e. cc;
  create_time_ne_nil = λ e. cc;
}

-- Two files, and three visits of each.
abbrev shelf : Shelf
shelf = record { files = picture_file ∷ picture_file ∷ []; visits = λ id. 3 }

abbrev shelf_world : World
shelf_world = (print picture_file ∷ print picture_file ∷ [], λ id. 3)

shelf-Holds : Holds redis tt redis-ServerLaws shelf shelf_world
unfolding redis-ServerLaws
shelf-Holds = record { files = refl; visits = λ m. refl }

pub picture_file-IsPresentable : IsPresentable shelf picture_file
unfolding host_of starts_with
picture_file-IsPresentable = record {
  rest = codes "1/M";
  is_listed =
      unfold suffix_of after_dot or_null in
      record {
        stored = picture_file-IsStored;
        url_split = refl;
        host_text = omega arith;
        first =
            is_absent-Absent group (codes "h/group1/M" ++ zeros 246) 1
              (unfold is_absent starts_with in refl);
        file_id_room = omega arith;
        url_room = omega arith;
        filename_room = omega arith;
        create_time_room = omega arith;
        user_room = omega arith;
        ip_room = omega arith;
        suffix_room = omega arith;
        pic_name_room = omega arith;
        picurl_room = omega arith;
      };
  fits = omega arith;
  bounded = omega arith;
}

picture_file-IsShown : IsShown shelf picture_file
picture_file-IsShown = record { presentable = picture_file-IsPresentable; visited = omega arith }

-- Arrays that an earlier request has used.
abbrev dirty : DataCgi.Arrays
dirty = record Fresh.clean { cmd = codes "newFile" ++ zeros 13; cnt = codes "99" ++ zeros 3 }

dirty-IsSized : Fresh.IsSized dirty
dirty-IsSized = record {
  cmd_size = refl;
  from_id_size = refl;
  cnt_size = refl;
  file_id_size = refl;
}

-- Two files from the first one on: the page has one.
handle-page_example :
    DataCgi.handle redis plain
      (list_request
        (codes "0")
        (codes "2")
        []
        (omega arith)
        (omega arith)
        redis
        plain
        (zeros 1024 ∷ zeros 1024 ∷ [])
        none)
      dirty
      shelf_world
    ≡ done (
      (
        DataCgi.page (some (page_text plain shelf (picture_file ∷ []))),
        list_arrays
            (codes "0")
            (codes "2")
            []
            (omega arith)
            (omega arith)
            redis
            plain
            (zeros 1024 ∷ zeros 1024 ∷ [])
            none,
      ),
      shelf_world,
    )
unfolding host_of starts_with suffix_of
handle-page_example =
    handle-page redis plain tt redis-ServerLaws (codes "0") (codes "2") [] (omega arith)
      (omega arith) (zeros 1024 ∷ zeros 1024 ∷ []) none dirty shelf shelf_world shelf_world
      dirty-IsSized (omega arith) (omega arith) (omega arith) (omega arith)
      (picture_file-IsShown, (picture_file-IsShown, tt)) (omega arith, (omega arith, tt))
      (omega arith) (connected shelf_world) shelf-Holds

g1-IsPart : IsPart (codes "g1")
g1-IsPart = ((refl, λ e. cc), ((refl, λ e. cc), tt))

m-IsPart : IsPart (codes "M")
m-IsPart = ((refl, λ e. cc), tt)

handle-visit_example :
    (w' : World) × (DataCgi.handle redis plain
        (click_request (codes "g1") [] (codes "M") [] g1-IsPart tt m-IsPart redis plain [])
        dirty
        shelf_world
      ≡ done (
        (
          DataCgi.page none,
          click_arrays (codes "g1") [] (codes "M") [] g1-IsPart tt m-IsPart redis plain [],
        ),
        w',
      ))
    × Holds redis tt redis-ServerLaws (visit (codes "g1/M") shelf) w'
handle-visit_example =
    handle-visit redis plain tt redis-ServerLaws (codes "g1") [] (codes "M") [] g1-IsPart tt
      m-IsPart [] dirty shelf shelf_world shelf_world dirty-IsSized (omega arith)
      (connected shelf_world) shelf-Holds

-- The same request, for the witness below.
one_click :
    (w' : World) × (DataCgi.handle redis plain
        (click_request (codes "g1") [] (codes "M") [] g1-IsPart tt m-IsPart redis plain [])
        dirty
        shelf_world
      ≡ done (
        (
          DataCgi.page none,
          click_arrays (codes "g1") [] (codes "M") [] g1-IsPart tt m-IsPart redis plain [],
        ),
        w',
      ))
    × Holds redis tt redis-ServerLaws (visit (codes "g1/M") shelf) w'
one_click =
    handle-visit redis plain tt redis-ServerLaws (codes "g1") [] (codes "M") [] g1-IsPart tt
      m-IsPart [] dirty shelf shelf_world shelf_world dirty-IsSized (omega arith)
      (connected shelf_world) shelf-Holds

handle-Counted_example :
    Keeps redis tt redis-ServerLaws shelf_world one_click.0
    ⊎ Counted redis plain tt redis-ServerLaws redis-ReadLaws
        (λ ip port w c e. refl)
        shelf_world
        one_click.0
handle-Counted_example =
    handle-Counted redis plain tt redis-ServerLaws redis-ReadLaws (λ ip port w c e. refl)
      (click_request (codes "g1") [] (codes "M") [] g1-IsPart tt m-IsPart redis plain []) dirty
      (
        DataCgi.page none,
        click_arrays (codes "g1") [] (codes "M") [] g1-IsPart tt m-IsPart redis plain [],
      )
      shelf_world one_click.0 one_click.1
