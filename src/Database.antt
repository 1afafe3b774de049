-- ===== src/Database.antt =====
-- `session_scope` and `wait_for_table` of src/quant_execution/db.py. The engine and its connections
-- are not part of the program: the operations of a session, what a
-- block does with it, what each inspection finds and what the clock reads are arguments.
pub mod Session
pub mod Startup
use quant_execution.Base.{
  ℕ, zero, suc, ◌+◌, Bool, true, false, Option, none, some, List, [], ◌∷◌, if◌then◌else◌, leb,
}

-- How a block ends.
pub data Ended (E A : Type 0) : Type 0 where
  returned : A → Ended E A
  raised : E → Ended E A

-- A session of SQLAlchemy: its operations on a state `S`, in which `stored` are the rows that the
-- database has, and `working` those that the session sees. `commit` gives the exception that it
-- raises, if it does.
pub record SessionOps (S D E : Type 0) : Type 0 where
  pub commit : S → Option E × S
  pub rollback : S → S
  pub close : S → S
  pub stored : S → D
  pub working : S → D

module _ {S D E A : Type 0} (ops : SessionOps S D E) where
  abbrev pub committed : A → Option E × S → Ended E A × S
  committed a (none, s) = (returned a, ops.close s)
  committed a (some e, s) = (raised e, ops.close (ops.rollback s))

  abbrev pub scoped : Ended E A × S → Ended E A × S
  scoped (returned a, s) = committed a (ops.commit s)
  scoped (raised e, s) = (raised e, ops.close (ops.rollback s))

  -- `session_scope` around a block, on a new session.
  unfoldable pub session_scope : (S → Ended E A × S) → S → Ended E A × S
  session_scope block s = scoped (block s)

-- What `inspect(engine).has_table(…)` finds: `none` is a `SQLAlchemyError`.
abbrev pub present : Option Bool → Bool
present none = false
present (some b) = b

-- The loop of `wait_for_table` from its round `i` on, up to a number of rounds; `none` where they
-- are used up. `probe i` and `clock i` are what the inspection and the clock give in that round.
unfoldable pub wait_from : (ℕ → Option Bool) → (ℕ → ℕ) → ℕ → ℕ → ℕ → Option Bool
wait_from probe clock deadline zero i = none
wait_from probe clock deadline (suc rounds) i =
    let later = wait_from probe clock deadline rounds (suc i) in
    if present (probe i) then some true else if leb deadline (clock i) then some false else later

-- `wait_for_table`, with what the clock reads at the call.
unfoldable pub wait_for_table : (ℕ → Option Bool) → (ℕ → ℕ) → ℕ → ℕ → ℕ → Option Bool
wait_for_table probe clock rounds start timeout = wait_from probe clock (start + timeout) rounds 0
