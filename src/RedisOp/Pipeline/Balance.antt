-- ===== src/RedisOp/Pipeline/Balance.antt =====
-- Commands sent and replies read: what is left in the pipeline when the two loops end.
use distributed_storage.Base.{
  ℕ, zero, suc, List, [], ◌∷◌, ◌++◌, ℤ, pos, minus_one, Bool, true, false, ◌&&◌, ◌≡◌, refl, ap, sym,
  ◌∙◌, length, append_assoc, append-nil, if◌then◌else◌, Bool-cases, inl, inr, ◌⊎◌,
}
use distributed_storage.Clib.Exec.{Exec, done, fault, >>=-eq-done}
use distributed_storage.RedisOp.Action.{return}
use distributed_storage.RedisOp.Hiredis.{Hiredis, Command, kept, set_reply}
use distributed_storage.RedisOp.Pipeline.{Slot, null, live, freed, append_all, commit, run_pipeline}

-- What hiredis documents of a pipeline: a command that is accepted waits behind the others, one that
-- is not changes nothing that waits; a reply that is read is that of the first, and is stored; where
-- none is read the caller's pointer is left as it was.
pub record PipelineLaws (H : Hiredis) (conn : H.Context) : Type 0 where
  pub waiting : H.World → List Command
  pub append_ok :
      (c : Command) (w : H.World)
      → (H.append conn c w).0 ≡ true
      → waiting (H.append conn c w).1 ≡ waiting w ++ c ∷ []
  pub append_err :
      (c : Command) (w : H.World)
      → (H.append conn c w).0 ≡ false
      → waiting (H.append conn c w).1 ≡ waiting w
  pub reply_ok :
      (c : Command) (cs : List Command) (w : H.World)
      → waiting w ≡ c ∷ cs
      → (H.get_reply conn w).0.0 ≡ true
      → waiting (H.get_reply conn w).1 ≡ cs
  pub stores :
      (w : H.World) → (H.get_reply conn w).0.0 ≡ true → (H.get_reply conn w).0.1 ≡ set_reply
  pub keeps : (w : H.World) → (H.get_reply conn w).0.0 ≡ false → (H.get_reply conn w).0.1 ≡ kept

same_state :
    {W : Type 0} {a b : Bool} {u v : W}
    → ◌≡◌ {A = Exec (Bool × W)} (done (a, u)) (done (b, v))
    → u ≡ v
same_state e = cc

module _ (H : Hiredis) (conn : H.Context) (laws : PipelineLaws H conn) where
  open H use {World}
  open laws use {waiting}

  append_all-waiting :
      (cmds : List Command) (w w' : World)
      → append_all H conn cmds w ≡ done (true, w')
      → waiting w' ≡ waiting w ++ cmds
  unfolding append_all
  append_all-waiting [] w w' h = rw append-nil (cc)
  append_all-waiting (c ∷ cs) w w' h = elim (Bool-cases (H.append conn c w).0) [
    | inl ok ↦
        append_all-waiting cs (H.append conn c w).1 w' (rw ok at h)
        ∙ rw (laws.append_ok c w ok) (append_assoc (waiting w) (c ∷ []) cs)
    | inr stop ↦ cc (rw stop at h)
  ]

  -- Where the first loop stops early, the commands in front of the refused one wait.
  append_all-stops :
      (cmds : List Command) (w w' : World)
      → append_all H conn cmds w ≡ done (false, w')
      → (front : List Command) × (c : Command) × (bs : List Command) × (cmds ≡ front ++ c ∷ bs)
        × (waiting w' ≡ waiting w ++ front)
  unfolding append_all
  append_all-stops [] w w' h = cc
  append_all-stops (c ∷ cs) w w' h = elim (Bool-cases (H.append conn c w).0) [
    | inl ok ↦
        let (front, d, bs, split, left) =
          append_all-stops cs (H.append conn c w).1 w' (rw ok at h) in
        (
          c ∷ front,
          d,
          bs,
          ap (◌∷◌ c) split,
          left ∙ rw (laws.append_ok c w ok) (append_assoc (waiting w) (c ∷ []) front),
        )
    | inr stop ↦ (
      [],
      c,
      cs,
      refl,
      rw append-nil (ap waiting (sym (same_state (rw stop at h))) ∙ laws.append_err c w stop),
    )
  ]

  -- A round whose reply is read leaves the variable at a released reply.
  commit_read :
      (n : ℕ) (slot : Slot) (w : World)
      → (H.get_reply conn w).0.0 ≡ true
      → commit H conn (suc n) slot w ≡ commit H conn n freed (H.get_reply conn w).1
  unfolding commit
  commit_read n slot w ok = rw (laws.stores w ok, ok)

  -- A round with no reply releases what the variable holds.
  commit_unread :
      (n : ℕ) (slot : Slot) (w : World)
      → (H.get_reply conn w).0.0 ≡ false
      → (commit H conn (suc n) slot w ≡ fault)
        ⊎ (commit H conn (suc n) slot w ≡ done (minus_one, (H.get_reply conn w).1))
  unfolding commit
  commit_unread n null w stop = inr (rw (laws.keeps w stop, stop))
  commit_unread n live w stop = inr (rw (laws.keeps w stop, stop))
  commit_unread n freed w stop = inl (rw (laws.keeps w stop))

  commit-waiting :
      (cs : List Command) (slot : Slot) (w w' : World)
      → waiting w ≡ cs
      → commit H conn (length cs) slot w ≡ done (pos 0, w')
      → waiting w' ≡ []
  commit-waiting [] slot w w' e h = unfold commit in cc
  commit-waiting (c ∷ cs) slot w w' e h = elim (Bool-cases (H.get_reply conn w).0.0) [
    | inl ok ↦
        commit-waiting cs freed (H.get_reply conn w).1 w' (laws.reply_ok c cs w e ok)
          (sym (commit_read (length cs) slot w ok) ∙ h)
    | inr stop ↦ elim (commit_unread (length cs) slot w stop) [ inl bad ↦ cc | inr failed ↦ cc ]
  ]

  abbrev behind : List Command → Bool → World → Exec (ℤ × World)
  behind cmds b = if b then commit H conn (length cmds) null else return minus_one

  after_sending :
      (cmds : List Command) (b : Bool) (w u w' : World)
      → waiting w ≡ []
      → append_all H conn cmds w ≡ done (b, u)
      → behind cmds b u ≡ done (pos 0, w')
      → waiting w' ≡ []
  after_sending cmds true w u w' e sent h =
      let left : waiting u ≡ cmds = append_all-waiting cmds w u sent ∙ ap (λ q. q ++ cmds) e in
      commit-waiting cmds null u w' left h
  after_sending cmds false w u w' e sent h = cc

  -- The four functions send a list of commands by the two loops. Where nothing waited before and
  -- the result is 0, every reply was read: nothing waits afterwards.
  pub run_pipeline-balanced :
      (cmds : List Command) (w w' : World)
      → waiting w ≡ []
      → run_pipeline H conn cmds w ≡ done (pos 0, w')
      → waiting w' ≡ []
  unfolding run_pipeline
  run_pipeline-balanced cmds w w' e h =
      let ((b, u), sent, h') =
        >>=-eq-done (append_all H conn cmds w) (λ r. behind cmds r.0 r.1) h in
      after_sending cmds b w u w' e sent h'

  -- Where a command is refused, the result is -1 and no reply is read: the commands in front of it
  -- are left waiting, so that the connection's next reply is not that of its next command.
  pub run_pipeline-left :
      (cmds : List Command) (w w' : World)
      → append_all H conn cmds w ≡ done (false, w')
      → (run_pipeline H conn cmds w ≡ done (minus_one, w'))
        × ((front : List Command) × (c : Command) × (bs : List Command) × (cmds ≡ front ++ c ∷ bs)
            × (waiting w' ≡ waiting w ++ front))
  unfolding run_pipeline
  run_pipeline-left cmds w w' h = (rw h, append_all-stops cmds w w' h)

  -- Can the next `n` replies be read, one behind the other? And what is there behind them?
  abbrev pub all_read : ℕ → World → Bool
  all_read zero w = true
  all_read (suc n) w = (H.get_reply conn w).0.0 && all_read n (H.get_reply conn w).1

  abbrev pub behind_reads : ℕ → World → World
  behind_reads zero w = w
  behind_reads (suc n) w = behind_reads n (H.get_reply conn w).1

  commit-freed :
      (n : ℕ) (w : World)
      → commit H conn n freed w ≡ (if all_read n w then done (pos 0, behind_reads n w) else fault)
  commit-freed zero w = unfold commit in refl
  commit-freed (suc n) w = elim (Bool-cases (H.get_reply conn w).0.0) [
    | inl ok ↦ rw (commit_read n freed w ok, ok) (commit-freed n (H.get_reply conn w).1)
    | inr stop ↦ unfold commit in rw (laws.keeps w stop, stop)
  ]

  -- Once the commands of a pipeline are sent and the first reply is read, the result is 0 exactly
  -- where every other reply can be read, and otherwise the loop releases the reply before the
  -- missing one a second time, which is undefined: -1 is never returned. A reply that is read is
  -- stored, and one that is not leaves the variable as it was.
  pub run_pipeline-double_free :
      (c : Command) (cs : List Command) (w u : World)
      → append_all H conn (c ∷ cs) w ≡ done (true, u)
      → (H.get_reply conn u).0.0 ≡ true
      → run_pipeline H conn (c ∷ cs) w ≡ (
          if all_read (length cs) (H.get_reply conn u).1
          then done (pos 0, behind_reads (length cs) (H.get_reply conn u).1)
          else fault)
  unfolding run_pipeline
  run_pipeline-double_free c cs w u sent read =
      rw (sent, commit_read (length cs) null u read)
        (commit-freed (length cs) (H.get_reply conn u).1)
