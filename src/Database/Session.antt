-- ===== src/Database/Session.antt =====
-- `session_scope` of src/quant_execution/db.py, and `_flush` of
-- src/quant_execution/repository/async_writer.py, whose unit of work it is.
use quant_execution.Base.{
  ◌≡◌, refl, sym, ap, ◌∙◌, ◌⊎◌, inl, inr, Bool, true, false, Option, none, some, List,
}
use quant_execution.Database.{Ended, SessionOps, committed, scoped, returned, raised, session_scope}
use quant_execution.Domain.Records.{Task}
use quant_execution.Repository.Trades.{Table}
use quant_execution.Repository.Writer.{apply_all, or_rolled_back, flush}

-- What a session promises: a commit that succeeds stores what the session sees, one that fails
-- stores nothing, and neither a rollback nor a close stores anything.
pub record SessionLaws {S D E : Type 0} (ops : SessionOps S D E) : Type 0 where
  pub commits : (s : S) → (ops.commit s).0 ≡ none → ops.stored (ops.commit s).1 ≡ ops.working s
  pub fails :
      (s : S) (e : E) → (ops.commit s).0 ≡ some e → ops.stored (ops.commit s).1 ≡ ops.stored s
  pub rolls_back : (s : S) → ops.stored (ops.rollback s) ≡ ops.stored s
  pub closes : (s : S) → ops.stored (ops.close s) ≡ ops.stored s

module _ {S D E A : Type 0} (ops : SessionOps S D E) where
  -- The block returned and its commit succeeded: what it left is stored, and the session closed.
  abbrev pub Commits : Ended E A × S → Ended E A × S → Type 0
  Commits block_done after =
      (a : A) × (t : S) × (block_done.0 ≡ returned a)
      × ((ops.commit block_done.1).0 ≡ none)
      × (after.0 ≡ returned a)
      × (ops.stored after.1 ≡ ops.working block_done.1)
      × (after.1 ≡ ops.close t)

  -- The block or its commit raised: so does the scope, what was stored before is, and the session
  -- was rolled back and closed.
  abbrev pub RollsBack : S → Ended E A × S → Ended E A × S → Type 0
  RollsBack s block_done after =
      (e : E) × (t : S) × ((block_done.0 ≡ raised e) ⊎ ((ops.commit block_done.1).0 ≡ some e))
      × (after.0 ≡ raised e)
      × (ops.stored after.1 ≡ ops.stored s)
      × (after.1 ≡ ops.close (ops.rollback t))

  module _ (laws : SessionLaws ops) (s : S) where
    commit_atomic :
        (a : A) (b : S) (c : Option E × S)
        → ops.commit b ≡ c
        → ops.stored b ≡ ops.stored s
        → Commits (returned a, b) (committed ops a c)
          ⊎ RollsBack s (returned a, b) (committed ops a c)
    commit_atomic a b (none, t) e kept =
        let went : (ops.commit b).0 ≡ none = ap (λ r. r.0) e in
        inl (
          a,
          t,
          refl,
          went,
          refl,
          laws.closes t ∙ (ap (λ r. ops.stored r.1) (sym e) ∙ laws.commits b went),
          refl,
        )
    commit_atomic a b (some x, t) e kept =
        let failed : (ops.commit b).0 ≡ some x = ap (λ r. r.0) e in
        inr (
          x,
          t,
          inr failed,
          refl,
          laws.closes (ops.rollback t)
              ∙ (laws.rolls_back t
                  ∙ (ap (λ r. ops.stored r.1) (sym e) ∙ (laws.fails b x failed ∙ kept))),
          refl,
        )

    scoped_atomic :
        (done : Ended E A × S)
        → ops.stored done.1 ≡ ops.stored s
        → Commits done (scoped ops done) ⊎ RollsBack s done (scoped ops done)
    scoped_atomic (returned a, b) kept = commit_atomic a b (ops.commit b) refl kept
    scoped_atomic (raised x, b) kept =
        inr (x, b, inl refl, refl, laws.closes (ops.rollback b) ∙ (laws.rolls_back b ∙ kept), refl)

    -- Of a session that keeps its promises and a block that stores nothing by itself: a scope stores
    -- what its block left, and closes the session, when the block returns and the commit succeeds;
    -- otherwise it raises what the block or the commit raised, what was stored before is stored
    -- still, and the session is rolled back and then closed.
    pub session_scope_atomic :
        (block : S → Ended E A × S)
        → ops.stored (block s).1 ≡ ops.stored s
        → Commits (block s) (session_scope ops block s)
          ⊎ RollsBack s (block s) (session_scope ops block s)
    unfolding session_scope
    session_scope_atomic block kept = scoped_atomic (block s) kept

-- A session in memory: the rows stored, those that it sees, and whether its commits succeed.
abbrev pub memory_commit : {D : Type 0} → Bool → D × D → Option (Unit {0}) × (D × D)
memory_commit true (stored, working) = (none, (working, working))
memory_commit false (stored, working) = (some tt, (stored, working))

abbrev pub in_memory : {D : Type 0} → Bool → SessionOps (D × D) D (Unit {0})
in_memory commits = record {
  commit = memory_commit commits;
  rollback = λ s. (s.0, s.0);
  close = λ s. s;
  stored = λ s. s.0;
  working = λ s. s.1;
}

pub in_memory-laws : {D : Type 0} (commits : Bool) → SessionLaws (in_memory {D = D} commits)
in_memory-laws true = record {
  commits = λ s h. refl;
  fails = λ s e h. cc h;
  rolls_back = λ s. refl;
  closes = λ s. refl;
}
in_memory-laws false = record {
  commits = λ s h. cc h;
  fails = λ s e h. refl;
  rolls_back = λ s. refl;
  closes = λ s. refl;
}

abbrev left_by : Table → Option Table → Ended (Unit {0}) (Unit {0}) × (Table × Table)
left_by rows none = (raised tt, (rows, rows))
left_by rows (some rows') = (returned tt, (rows, rows'))

-- The block of `_flush`: the loop over the batch.
abbrev pub flush_block : List Task → Table × Table → Ended (Unit {0}) (Unit {0}) × (Table × Table)
flush_block batch s = left_by s.0 (apply_all batch s.1)

flushed :
    (rows : Table) (applied : Option Table)
    → (rows ≡ (scoped (in_memory false) (left_by rows applied)).1.0)
      × (or_rolled_back rows applied ≡ (scoped (in_memory true) (left_by rows applied)).1.0)
flushed rows none = (refl, refl)
flushed rows (some rows') = (refl, refl)

-- `_flush` leaves the rows that a session scope around its loop over the batch leaves.
pub flush-session_scope :
    (commits : Bool) (batch : List Task) (rows : Table)
    → flush commits batch rows
      ≡ (session_scope (in_memory commits) (flush_block batch) (rows, rows)).1.0
unfolding flush session_scope
flush-session_scope true batch rows = (flushed rows (apply_all batch rows)).1
flush-session_scope false batch rows = (flushed rows (apply_all batch rows)).0
