-- ===== src/Tests/Server.antt =====
-- src/redis_op.c against the toy server.
use distributed_storage.Base.{
  ◌+◌, ◌≡◌, refl, none, some, List, [], ◌∷◌, ◌++◌, pos, minus_one, true, false, arith, Bool, zero,
  suc,
}
use distributed_storage.Clib.Chars.{atoi, digits, signed, isdigit, isspace, uint16}
use distributed_storage.Clib.Exec.{done, fault}
use distributed_storage.Clib.Strings.{codes, zeros, padded}
use distributed_storage.RedisOp.Connect.{rop_connectdb_nopwd, rop_connectdb, checked}
use distributed_storage.RedisOp.Connect.Released.{rop_connectdb_nopwd-released, rop_connectdb-leak}
use distributed_storage.Clib.Copy.{length-zeros}
use distributed_storage.RedisOp.Hash.{buf_unit, rop_create_or_replace_hash_table}
use distributed_storage.RedisOp.Hash.Sent.{rop_create_or_replace_hash_table_ambiguous}
use distributed_storage.RedisOp.Hiredis.{
  Hiredis, Reply, ReplyType, Command, Stored, kept, set_reply,
}
use distributed_storage.RedisOp.Keys.{cmd}
use distributed_storage.RedisOp.Pipeline.{append_all, commit, run_pipeline, store, free_reply}
use distributed_storage.RedisOp.Pipeline.Balance.{
  PipelineLaws, run_pipeline-balanced, run_pipeline-left, run_pipeline-double_free,
}
use distributed_storage.RedisOp.Values.{rop_range_list}
use distributed_storage.RedisOp.Values.Replies.{written, rop_range_list-rows}
use distributed_storage.Tests.Toy.{toy, State, send, toy-ConnectLaws, toy-PipelineLaws}

abbrev ping : Command
ping = cmd (codes "PING") []

abbrev refused : Command
refused = cmd [] []

run_pipeline-balanced_example : (toy-PipelineLaws false none).waiting (0, []) ≡ []
unfolding toy-PipelineLaws run_pipeline append_all commit store free_reply
run_pipeline-balanced_example =
    run_pipeline-balanced (toy false none) tt (toy-PipelineLaws false none) (ping ∷ ping ∷ [])
      (0, []) (0, []) refl refl

run_pipeline-left_example :
    (run_pipeline (toy false none) tt (ping ∷ refused ∷ []) (0, [])
      ≡ done (minus_one, (0, ping ∷ [])))
    × ((front : List Command) × (c : Command) × (bs : List Command) × (ping ∷ refused ∷ []
          ≡ front ++ c ∷ bs)
        × ((toy-PipelineLaws false none).waiting (0, ping ∷ [])
            ≡ (toy-PipelineLaws false none).waiting (0, []) ++ front))
run_pipeline-left_example =
    run_pipeline-left (toy false none) tt (toy-PipelineLaws false none) (ping ∷ refused ∷ [])
      (0, []) (0, ping ∷ []) (unfold append_all in refl)

-- The reply to the second command is lost.
abbrev receive_one : State → (Bool × Stored) × State
receive_one (n, []) = ((false, kept), (n, []))
receive_one (zero, _ ∷ cs) = ((true, set_reply), (1, cs))
receive_one (suc n, c ∷ cs) = ((false, kept), (suc n, c ∷ cs))

abbrev lossy : Hiredis
lossy = record {
  World = State;
  Context = Unit {0};
  connect = λ ip port w. (none, w);
  connect_unix = λ path w. (none, w);
  connect_timeout = λ ip port t w. (none, w);
  err = λ c w. false;
  free = λ c w. w;
  command = λ c m w. (none, w);
  append = λ c m w. send m w;
  get_reply = λ c w. receive_one w;
}

lossy-PipelineLaws : PipelineLaws lossy tt
unfolding toy-PipelineLaws
lossy-PipelineLaws = record {
  waiting = λ w. w.1;
  append_ok = (toy-PipelineLaws false none).append_ok;
  append_err = (toy-PipelineLaws false none).append_err;
  reply_ok = reads_first;
  stores = stores;
  keeps = keeps;
}
  where
    reads_first :
        (c : Command) (cs : List Command) (w : State)
        → w.1 ≡ c ∷ cs
        → (receive_one w).0.0 ≡ true
        → (receive_one w).1.1 ≡ cs
    reads_first c cs (zero, d ∷ ds) e h = cc
    reads_first c cs (suc n, d ∷ ds) e h = cc
    reads_first c cs (n, []) e h = cc

    stores : (w : State) → (receive_one w).0.0 ≡ true → (receive_one w).0.1 ≡ set_reply
    stores (n, []) h = cc
    stores (zero, c ∷ cs) h = refl
    stores (suc n, c ∷ cs) h = cc

    keeps : (w : State) → (receive_one w).0.0 ≡ false → (receive_one w).0.1 ≡ kept
    keeps (n, []) h = refl
    keeps (zero, c ∷ cs) h = cc
    keeps (suc n, c ∷ cs) h = refl

run_pipeline-double_free_example : run_pipeline lossy tt (ping ∷ ping ∷ []) (0, []) ≡ fault
run_pipeline-double_free_example =
    run_pipeline-double_free lossy tt lossy-PipelineLaws ping (ping ∷ []) (0, [])
      (0, ping ∷ ping ∷ []) (unfold append_all in refl) refl

abbrev score : Reply
score = record { type = ReplyType.string; integer = pos 0; str = some (codes "3"); element = [] }

abbrev rows_reply : Reply
rows_reply = record {
  type = ReplyType.array;
  integer = pos 0;
  str = none;
  element = some (codes "a") ∷ some (codes "b") ∷ [];
}

-- Of the two values of the range from 0 to 1 one is copied.
rop_range_list-rows_example :
    rop_range_list
      (toy false (some rows_reply))
      tt
      (codes "L")
      (pos 0)
      (pos 1)
      (zeros 1024 ∷ zeros 1024 ∷ [])
      (0, [])
    ≡ done ((pos 0, (padded 1023 (codes "a") ++ 0 ∷ []) ∷ zeros 1024 ∷ [], 1), (0, []))
unfolding written
rop_range_list-rows_example =
    rop_range_list-rows (toy false (some rows_reply)) tt (codes "L") 0 1
      (zeros 1024 ∷ zeros 1024 ∷ []) (codes "a" ∷ codes "b" ∷ []) rows_reply (0, []) (0, []) refl
      refl refl ((omega arith, omega arith), ((omega arith, omega arith), tt))
      (omega arith, (omega arith, tt)) (omega arith)

-- The context is in error: it is released.
rop_connectdb_nopwd-released_example :
    (toy-ConnectLaws true none).allocated (4, []) ≡ (toy-ConnectLaws true none).allocated (4, [])
rop_connectdb_nopwd-released_example =
    rop_connectdb_nopwd-released (toy true none) (toy-ConnectLaws true none) (codes "h")
      (codes "6379") (4, []) (4, [])
      (unfold rop_connectdb_nopwd checked atoi signed digits isdigit isspace uint16 in refl)

rop_connectdb-leak_example :
    (rop_connectdb (toy false none) (codes "h") (codes "80") (codes "pw") (4, [])
      ≡ done (none, (5, [])))
    × ((toy-ConnectLaws false none).allocated (5, [])
        ≡ (toy-ConnectLaws false none).allocated (4, []) + 1)
rop_connectdb-leak_example =
    rop_connectdb-leak (toy false none) (toy-ConnectLaws false none) (codes "h") (codes "80")
      (codes "pw") (pos 80) tt (4, []) (5, []) (5, [])
      (unfold atoi signed digits isdigit isspace in refl) (omega arith) refl refl refl

abbrev ok_reply : Reply
ok_reply = record {
  type = ReplyType.status;
  integer = pos 0;
  str = some (codes "OK");
  element = [];
}

rop_create_or_replace_hash_table_ambiguous_example :
    rop_create_or_replace_hash_table
      (λ n c. none)
      (toy false (some ok_reply))
      tt
      (some (zeros buf_unit))
      (codes "u" ++ 0 ∷ [])
      ((codes "age" ++ 0 ∷ [], codes "7 pw x" ++ 0 ∷ []) ∷ [])
      (4, [])
    ≡ rop_create_or_replace_hash_table
        (λ n c. none)
        (toy false (some ok_reply))
        tt
        (some (zeros buf_unit))
        (codes "u" ++ 0 ∷ [])
        ((codes "age" ++ 0 ∷ [], codes "7" ++ 0 ∷ [])
          ∷ (codes "pw" ++ 0 ∷ [], codes "x" ++ 0 ∷ [])
          ∷ [])
        (4, [])
rop_create_or_replace_hash_table_ambiguous_example =
    rop_create_or_replace_hash_table_ambiguous (λ n c. none) (zeros buf_unit) (codes "u") [] []
      (length-zeros buf_unit) (omega arith) (omega arith) (toy false (some ok_reply)) tt
      (codes "age") (codes "7") (codes "pw") (codes "x") (4, [])
      ((omega arith, omega arith), (omega arith, omega arith))
      ((omega arith, omega arith), (omega arith, omega arith))
      ((omega arith, omega arith), (omega arith, omega arith))
