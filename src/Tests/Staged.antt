-- ===== src/Tests/Staged.antt =====
-- The server of Tests/Redis, and a system whose programs print the id at first, and the address once a
-- file was unlinked.
use distributed_storage.Base.{
  ◌+◌, ◌≡◌, refl, true, false, if◌then◌else◌, some, none, [], ◌++◌, take,
}
use distributed_storage.Clib.Chars.{isspace, atoi, signed, digits, isdigit, uint16}
use distributed_storage.Clib.Exec.{done}
use distributed_storage.Clib.Strings.{Bytes, codes, zeros, equal}
use distributed_storage.Shelf.{Holds}
use distributed_storage.Tests.Redis as Redis
use distributed_storage.Tests.Redis.{redis, redis-ServerLaws}
use distributed_storage.Shelf.{ServerLaws}
use distributed_storage.Shelf.Apart.{Apart}
use distributed_storage.Shelf.Listed.{no_files}
use distributed_storage.RedisOp.Hiredis.{Hiredis, kept}
use distributed_storage.Base.{ℕ, ap, ◌==◌}
use distributed_storage.RedisOp.Connect.{rop_connectdb_nopwd, checked}
use distributed_storage.Usefull.System.{System, parent}
use distributed_storage.DataUse.Listing.{CJson}

abbrev pub World : Type 0
World = Redis.World × ℕ

abbrev pub staged : Hiredis
staged = record {
  World = World;
  Context = Unit {0};
  connect = λ ip port w. (some tt, w);
  connect_unix = λ path w. (some tt, w);
  connect_timeout = λ ip port t w. (some tt, w);
  err = λ c w. false;
  free = λ c w. w;
  command = λ c m w. ((redis.command tt m w.0).0, ((redis.command tt m w.0).1, w.1));
  append = λ c m w. (false, w);
  get_reply = λ c w. ((false, kept), w);
}

unfoldable pub staged-ServerLaws : ServerLaws staged tt
unfolding redis-ServerLaws equal
staged-ServerLaws = record {
  rows = λ w. w.0.0;
  scores = λ w. w.0.1;
  push = λ value w.
      let (reply, u, run, type, rows, scores) = redis-ServerLaws.push value w.0 in
      (reply, (u, w.1), ap (λ r. (r.0, (r.1, w.1))) run, type, rows, scores);
  count = λ member w.
      let (reply, u, score, run, str, is_score, rows, scores) = redis-ServerLaws.count member w.0 in
      (reply, (u, w.1), score, ap (λ r. (r.0, (r.1, w.1))) run, str, is_score, rows, scores);
  range = λ from stop w.
      let (reply, run, type, element) = redis-ServerLaws.range from stop w.0 in
      (reply, ap (λ r. (r.0, (r.1, w.1))) run, type, element);
  score = λ member w lo hi.
      let (reply, digits, run, type, str, number) = redis-ServerLaws.score member w.0 lo hi in
      (reply, digits, ap (λ r. (r.0, (r.1, w.1))) run, type, str, number);
  no_score = λ member w e.
      let (reply, run, type) = redis-ServerLaws.no_score member w.0 e in
      (reply, ap (λ r. (r.0, (r.1, w.1))) run, type);
  connect_rows = λ ip port w. refl;
  connect_scores = λ ip port w m. refl;
  free_rows = λ w. refl;
  free_scores = λ w m. refl;
}

pub connected_staged :
    (w : World)
    → rop_connectdb_nopwd staged (codes "127.0.0.1") (codes "6379") w ≡ done (some tt, w)
unfolding rop_connectdb_nopwd checked
connected_staged w = unfold atoi signed digits isdigit isspace uint16 in refl

abbrev pub keeper : System World
keeper = record {
  pipe = λ w. (true, w);
  fork = λ w. (parent, w);
  close = λ e w. w;
  dup = λ w. w;
  exec = λ program args w. (none, w);
  wait = λ w. w;
  read =
      λ n w. (take n (if w.1 == 0 then codes "group1/M\n" else codes "source ip address:1.2\n"), w);
  malloc = λ n w. (some (zeros n), w);
  save = λ name bytes w. w;
  unlink = λ name w. (w.0, w.1 + 1);
}

pub keeper-Apart : Apart staged keeper tt staged-ServerLaws
unfolding staged-ServerLaws
keeper-Apart = record {
  malloc = λ n w. (refl, λ m. refl);
  save = λ name bytes w. (refl, λ m. refl);
  unlink = λ name w. (refl, λ m. refl);
  pipe = λ w. (refl, λ m. refl);
  fork = λ w. (refl, λ m. refl);
  close = λ end w. (refl, λ m. refl);
  wait = λ w. (refl, λ m. refl);
  read = λ n w. (refl, λ m. refl);
  dup = λ w. (refl, λ m. refl);
  exec = λ program args w. (refl, λ m. refl);
}

abbrev pub start : World
start = (([], λ id. 0), 0)

abbrev pub behind_unlink : World
behind_unlink = (([], λ id. 0), 1)

pub empty-Holds : Holds staged tt staged-ServerLaws no_files start
unfolding staged-ServerLaws redis-ServerLaws
empty-Holds = record { files = refl; visits = λ m. refl }

-- A value is the text that was added to it.
abbrev pub plain : CJson
plain = record {
  Json = Bytes;
  create_object = [];
  create_array = [];
  add_string = λ a name b. a ++ b;
  add_number = λ a name n. a;
  add_item_to_array = λ a b. a ++ b;
  add_item_to_object = λ a name b. a ++ b;
  print = λ a. a;
}
