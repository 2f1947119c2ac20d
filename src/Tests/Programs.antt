-- ===== src/Tests/Programs.antt =====
-- The list program, on one request of each kind.
use distributed_storage.Base.{◌≡◌, refl, false, some, none, List, [], ◌∷◌, ◌++◌, pos, arith}
use distributed_storage.Clib.Strings.{Bytes, codes, zeros}
use distributed_storage.DataUse.Listing.{CJson, read_redis_to_json, increase_file_pv}
use distributed_storage.Programs.DataCgi as DataCgi
use distributed_storage.Programs.DataCgi.Fresh as Fresh
use distributed_storage.Programs.DataCgi.Fresh.{answers, serve-answers}
use distributed_storage.Programs.DataCgi.NewFile.{handle-new_file, list_request, as_page}
use distributed_storage.Programs.DataCgi.Increase.{
  handle-increase, click_request, as_empty_page, IsPart,
}
use distributed_storage.RedisOp.Action.{◌>>=◌}
use distributed_storage.RedisOp.Hiredis.{Reply, ReplyType}
use distributed_storage.Tests.Toy.{toy}

-- A value is the text that was added to it.
abbrev plain : CJson
plain = record {
  Json = Bytes;
  create_object = [];
  create_array = [];
  add_string = λ a name b. a ++ b;
  add_number = λ a name n. a;
  add_item_to_array = λ a b. a ++ b;
  add_item_to_object = λ a name b. a ++ b;
  print = λ a. a;
}

abbrev answer : Reply
answer = record { type = ReplyType.integer; integer = pos 1; str = some (codes "1"); element = [] }

-- Arrays that an earlier request has used.
abbrev dirty : DataCgi.Arrays
dirty = record Fresh.clean { cmd = codes "newFile" ++ zeros 13; cnt = codes "99" ++ zeros 3 }

dirty-IsSized : Fresh.IsSized dirty
dirty-IsSized = record {
  cmd_size = refl;
  from_id_size = refl;
  cnt_size = refl;
  file_id_size = refl;
}

handle-new_file_example :
    DataCgi.handle
      (toy false (some answer))
      plain
      (list_request
        (codes "7")
        (codes "12")
        []
        (omega arith)
        (omega arith)
        (toy false (some answer))
        plain
        []
        none)
      dirty
      (4, [])
    ≡ (read_redis_to_json (toy false (some answer)) plain (pos 7) (pos 12) []
          >>= as_page
              (codes "7")
              (codes "12")
              []
              (omega arith)
              (omega arith)
              (toy false (some answer))
              plain
              []
              none)
        (4, [])
handle-new_file_example =
    handle-new_file (codes "7") (codes "12") [] (omega arith) (omega arith)
      (toy false (some answer)) plain [] none dirty (4, []) dirty-IsSized (omega arith)
      (omega arith) (omega arith) (omega arith)

g1-IsPart : IsPart (codes "g1")
g1-IsPart = ((refl, λ e. cc), ((refl, λ e. cc), tt))

m-IsPart : IsPart (codes "M")
m-IsPart = ((refl, λ e. cc), tt)

handle-increase_example :
    DataCgi.handle
      (toy false (some answer))
      plain
      (click_request
        (codes "g1")
        []
        (codes "M")
        []
        g1-IsPart
        tt
        m-IsPart
        (toy false (some answer))
        plain
        [])
      dirty
      (4, [])
    ≡ (increase_file_pv (toy false (some answer)) (codes "g1/M")
          >>= as_empty_page
              (codes "g1")
              []
              (codes "M")
              []
              g1-IsPart
              tt
              m-IsPart
              (toy false (some answer))
              plain
              [])
        (4, [])
handle-increase_example =
    handle-increase (codes "g1") [] (codes "M") [] g1-IsPart tt m-IsPart (toy false (some answer))
      plain [] dirty (4, []) dirty-IsSized (omega arith)

-- A list, and a click behind it.
abbrev two_requests : List DataCgi.Request
two_requests =
    list_request (codes "7") (codes "12") [] (omega arith) (omega arith) (toy false (some answer))
      plain [] none
    ∷ click_request (codes "g1") [] (codes "M") [] g1-IsPart tt m-IsPart (toy false (some answer))
        plain []
    ∷ []

serve-answers_example :
    DataCgi.serve (toy false (some answer)) plain two_requests dirty (4, [])
    ≡ answers (toy false (some answer)) plain two_requests (4, [])
serve-answers_example =
    serve-answers (toy false (some answer)) plain two_requests dirty (4, []) dirty-IsSized
