-- ===== src/Tests/Redis.antt =====
-- A server that keeps the list and the scores.
use distributed_storage.Base.{
  ◌<◌, zero, suc, ℕ, ◌+◌, ◌-◌, ◌≤◌, ◌≡◌, refl, ap, ◌∙◌, false, if◌then◌else◌, Option, some, none,
  List, [], ◌∷◌, pos, arith, take, drop, map,
}
use distributed_storage.Clib.Chars.{int_max, isspace, atoi, signed, digits, isdigit, uint16}
use distributed_storage.Clib.Decimal.{atoi-number}
use distributed_storage.Clib.Exec.{done}
use distributed_storage.Clib.Print.{decimal, decimal-IsDecimal, number-decimal}
use distributed_storage.Clib.Strings.{cstring, Bytes, codes, equal}
use distributed_storage.RedisOp.Connect.{rop_connectdb_nopwd, checked}
use distributed_storage.Base.{ℤ, negsuc}
use distributed_storage.Programs.DataCgi.Reads.{ReadLaws}
use distributed_storage.Shelf.Connects.{Keeps}
use distributed_storage.RedisOp.Keys.{cmd}
use distributed_storage.RedisOp.Hiredis.{Hiredis, Reply, ReplyType, Arg, text, int, kept}
use distributed_storage.Shelf.{ServerLaws, one_more}

pub atoi-decimal : (n : ℕ) → n ≤ int_max → atoi (cstring (decimal n n)) ≡ done (pos n)
atoi-decimal n le =
    atoi-number (decimal n n) [] (decimal-IsDecimal n n (omega arith))
      (omega (arith, number-decimal n n (omega arith)))
    ∙ ap (λ k. done (pos k)) (number-decimal n n (omega arith))

-- The list, newest first, and the scores.
abbrev pub World : Type 0
World = List Bytes × (Bytes → ℕ)

abbrev integer_reply : Reply
integer_reply = record { type = ReplyType.integer; integer = pos 1; str = none; element = [] }

abbrev string_reply : Bytes → Reply
string_reply s = record { type = ReplyType.string; integer = pos 0; str = some s; element = [] }

abbrev array_reply : List Bytes → Reply
array_reply ts = record {
  type = ReplyType.array;
  integer = pos 0;
  str = none;
  element = map some ts;
}

-- A member without a score is not in the sorted set.
abbrev score_reply : ℕ → Reply
score_reply zero = record { type = ReplyType.nil; integer = pos 0; str = none; element = [] }
score_reply (suc n) = string_reply (decimal (suc n) (suc n))

abbrev score_reply-string : (n : ℕ) → 0 < n → score_reply n ≡ string_reply (decimal n n)
score_reply-string zero lt = absurd (omega arith)
score_reply-string (suc n) lt = refl

-- The four commands that the shelf needs, by their formats.
abbrev answer : Bytes → List Arg → World → Option Reply × World
answer format (text key ∷ text value ∷ []) w =
    if equal format (codes "LPUSH %s %s")
    then (some integer_reply, (value ∷ w.0, w.1))
    else if equal format (codes "ZINCRBY %s 1 %s")
    then (some (string_reply (codes "1")), (w.0, one_more value w.1))
    else (some (score_reply (w.1 value)), w)
answer format (text key ∷ int (pos from) ∷ int (pos stop) ∷ []) w =
    (some (array_reply (take (stop + 1 - from) (drop from w.0))), w)
answer format _ w = (none, w)

abbrev pub redis : Hiredis
redis = record {
  World = World;
  Context = Unit {0};
  connect = λ ip port w. (some tt, w);
  connect_unix = λ path w. (some tt, w);
  connect_timeout = λ ip port t w. (some tt, w);
  err = λ c w. false;
  free = λ c w. w;
  command = λ c m w. answer m.format m.args w;
  append = λ c m w. (false, w);
  get_reply = λ c w. ((false, kept), w);
}

unfoldable pub redis-ServerLaws : ServerLaws redis tt
unfolding equal
redis-ServerLaws = record {
  rows = λ w. w.0;
  scores = λ w. w.1;
  push = λ value w. (integer_reply, (value ∷ w.0, w.1), refl, refl, refl, λ m. refl);
  count = λ member w. (
    string_reply (codes "1"),
    (w.0, one_more member w.1),
    codes "1",
    refl,
    refl,
    omega arith,
    refl,
    λ m. refl,
  );
  range = λ from stop w. (array_reply (take (stop + 1 - from) (drop from w.0)), refl, refl, refl);
  score = λ member w lo hi. (
    string_reply (decimal (w.1 member) (w.1 member)),
    decimal (w.1 member) (w.1 member),
    ap (λ r. (some r, w)) (score_reply-string (w.1 member) lo),
    refl,
    refl,
    atoi-decimal (w.1 member) hi,
  );
  no_score = λ member w e. (score_reply 0, ap (λ n. (some (score_reply n), w)) e, refl);
  connect_rows = λ ip port w. refl;
  connect_scores = λ ip port w m. refl;
  free_rows = λ w. refl;
  free_scores = λ w m. refl;
}

pub connected :
    (w : World) → rop_connectdb_nopwd redis (codes "127.0.0.1") (codes "6379") w ≡ done (some tt, w)
unfolding rop_connectdb_nopwd checked
connected w = unfold atoi signed digits isdigit isspace uint16 in refl

range_keeps :
    (key : Bytes) (from stop : ℤ) (w : World)
    → Keeps redis tt redis-ServerLaws w
        (redis.command tt (cmd (codes "LRANGE %s %d %d") (text key ∷ int from ∷ int stop ∷ [])) w).1
unfolding redis-ServerLaws
range_keeps key (pos from) (pos stop) w = (refl, λ m. refl)
range_keeps key (pos from) (negsuc stop) w = (refl, λ m. refl)
range_keeps key (negsuc from) (pos stop) w = (refl, λ m. refl)
range_keeps key (negsuc from) (negsuc stop) w = (refl, λ m. refl)

pub redis-ReadLaws : ReadLaws redis tt redis-ServerLaws
unfolding redis-ServerLaws equal
redis-ReadLaws = record {
  range_keeps = range_keeps;
  score_keeps = λ key member w. (refl, λ m. refl);
}
