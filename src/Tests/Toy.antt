-- ===== src/Tests/Toy.antt =====
-- A library and a server that count contexts, queue the commands of a pipeline, and answer every
-- command with the same reply: the hypotheses on hiredis hold for it.
use distributed_storage.Base.{
  ℕ, ◌+◌, ◌-◌, ◌≡◌, refl, Option, some, List, [], ◌∷◌, ◌++◌, Bool, true, false, if◌then◌else◌,
  Bool-cases, inl, inr,
}
use distributed_storage.Clib.Strings.{Bytes}
use distributed_storage.RedisOp.Connect.Released.{ConnectLaws}
use distributed_storage.RedisOp.Hiredis.{Hiredis, Reply, Command, Stored, kept, set_reply}
use distributed_storage.RedisOp.Pipeline.Balance.{PipelineLaws}

-- The number of contexts, and the commands that wait.
abbrev pub State : Type 0
State = ℕ × List Command

abbrev open_one : State → Option (Unit {0}) × State
open_one w = (some tt, (w.0 + 1, w.1))

abbrev is_nil : Bytes → Bool
is_nil [] = true
is_nil (_ ∷ _) = false

-- A command with an empty format is refused.
abbrev pub send : Command → State → Bool × State
send c w = if is_nil c.format then (false, w) else (true, (w.0, w.1 ++ c ∷ []))

abbrev pub receive : State → (Bool × Stored) × State
receive w = elim w.1 [ [] ↦ ((false, kept), w) | _ ∷ cs ↦ ((true, set_reply), (w.0, cs)) ]

-- Are new contexts in error, and what is every command answered with?
abbrev pub toy : Bool → Option Reply → Hiredis
toy bad reply = record {
  World = State;
  Context = Unit {0};
  connect = λ ip port w. open_one w;
  connect_unix = λ path w. open_one w;
  connect_timeout = λ ip port t w. open_one w;
  err = λ c w. bad;
  free = λ c w. (w.0 - 1, w.1);
  command = λ c m w. (reply, w);
  append = λ c m w. send m w;
  get_reply = λ c w. receive w;
}

unfoldable pub toy-ConnectLaws : (bad : Bool) (reply : Option Reply) → ConnectLaws (toy bad reply)
toy-ConnectLaws bad reply = record {
  allocated = λ w. w.0;
  connect_none = λ ip port w h. cc;
  connect_some = λ ip port w c h. refl;
  free_one = λ c w. refl;
  command_same = λ c m w. refl;
}

unfoldable pub toy-PipelineLaws :
    (bad : Bool) (reply : Option Reply) → PipelineLaws (toy bad reply) tt
toy-PipelineLaws bad reply = record {
  waiting = λ w. w.1;
  append_ok = accepted;
  append_err = refused;
  reply_ok = λ c cs w e h. rw e;
  stores = stores;
  keeps = keeps;
}
  where
    accepted : (c : Command) (w : State) → (send c w).0 ≡ true → (send c w).1.1 ≡ w.1 ++ c ∷ []
    accepted c w h = elim (Bool-cases (is_nil c.format)) [ inl e ↦ cc (rw e at h) | inr e ↦ rw e ]

    refused : (c : Command) (w : State) → (send c w).0 ≡ false → (send c w).1.1 ≡ w.1
    refused c w h = elim (Bool-cases (is_nil c.format)) [ inl e ↦ rw e | inr e ↦ cc (rw e at h) ]

    stores : (w : State) → (receive w).0.0 ≡ true → (receive w).0.1 ≡ set_reply
    stores (n, []) h = cc
    stores (n, c ∷ cs) h = refl

    keeps : (w : State) → (receive w).0.0 ≡ false → (receive w).0.1 ≡ kept
    keeps (n, []) h = refl
    keeps (n, c ∷ cs) h = cc
