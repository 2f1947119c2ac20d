-- ===== src/Tests/Values.antt =====
-- A server that keeps texts by their keys, and SET and GET on it.
use distributed_storage.Base.{
  Option, ◌≡◌, refl, none, some, [], ◌∷◌, ◌++◌, pos, if◌then◌else◌, false, List, arith,
}
use distributed_storage.Clib.Exec.{done}
use distributed_storage.Clib.Strings.{Bytes, codes, zeros, equal}
use distributed_storage.RedisOp.Hiredis.{Hiredis, Reply, ReplyType, Arg, text, kept}
use distributed_storage.RedisOp.Values.{rop_get_string, rop_set_string}
use distributed_storage.RedisOp.Values.Stored.{TextLaws, rop_get_string-rop_set_string}

abbrev World : Type 0
World = Bytes → Option Bytes

abbrev text_reply : ReplyType → Option Bytes → Reply
text_reply type str = record { type = type; integer = pos 0; str = str; element = [] }

abbrev found : Option Bytes → Reply
found none = text_reply ReplyType.nil none
found (some value) = text_reply ReplyType.string (some value)

abbrev answer : List Arg → World → Option Reply × World
answer (text key ∷ text value ∷ []) w = (
  some (text_reply ReplyType.status (some (codes "OK"))),
  λ k. if equal k key then some value else w k,
)
answer (text key ∷ []) w = (some (found (w key)), w)
answer _ w = (none, w)

abbrev keeping : Hiredis
keeping = record {
  World = World;
  Context = Unit {0};
  connect = λ ip port w. (some tt, w);
  connect_unix = λ path w. (some tt, w);
  connect_timeout = λ ip port t w. (some tt, w);
  err = λ c w. false;
  free = λ c w. w;
  command = λ c m w. answer m.args w;
  append = λ c m w. (false, w);
  get_reply = λ c w. ((false, kept), w);
}

keeping-TextLaws : TextLaws keeping tt
keeping-TextLaws = record {
  texts = λ w. w;
  set = λ key value w. (
    text_reply ReplyType.status (some (codes "OK")),
    λ k. if equal k key then some value else w k,
    refl,
    refl,
    λ k. refl,
  );
  get_some = λ key value w same. (found (some value), rw same, refl, refl);
  get_none = λ key w same. (found none, rw same, refl);
}

rop_get_string-rop_set_string_example :
    (u : World) × (rop_set_string keeping tt (codes "k") (codes "ab") (λ k. none) ≡ done (pos 1, u))
    × (rop_get_string keeping tt (codes "k") (zeros 4) u
        ≡ done ((pos 1, codes "ab" ++ 0 ∷ 0 ∷ []), u))
unfolding equal keeping-TextLaws
rop_get_string-rop_set_string_example =
    rop_get_string-rop_set_string keeping tt keeping-TextLaws (codes "k") (codes "ab") (codes "k")
      (zeros 4) (λ k. none) (omega arith) tt
