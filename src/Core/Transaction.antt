-- ===== src/Core/Transaction.antt =====
-- app/core/base/transaction.py: blocks that commit or roll back, and callbacks after the commit.
pub mod Atomicity
mod Tests
use heofberu_backend.Prelude.{
  ℕ, ◌+◌, ◌-◌, Bool, true, false, not, List, [], ◌∷◌, ◌++◌, ltb, if◌then◌else◌,
}
use heofberu_backend.Prelude.Result.{⊤, Result, ok, err, ◌>>=◌, ◌>>◌}

-- a coroutine that is run for its effect, and whether it raises
pub record Callback : Type 0 where
  pub name : ℕ
  pub fails : Bool

-- what a service does with its session
pub data Program : Type 0 where
  -- a repository write, behind `require_atomic`
  write : ℕ → Program
  -- `after_commit(db, callback)`
  register : Callback → Program
  -- `async with atomic(db): …`
  block : Program → Program
  -- `raise`
  fail : Program
  -- the task is cancelled here: `CancelledError`, which no `except Exception` catches
  cancel : Program
  seq : Program → Program → Program
  -- `try: … except Exception: pass`
  guarded : Program → Program

pub data TransactionError : Type 0 where
  not_in_atomic raised cancelled commit_failed callback_failed : TransactionError

-- `_state(db)` and the database as the session sees it
pub record Session : Type 0 where
  pub depth : ℕ
  pub pending : List Callback
  -- the rows that the session sees, and those that are committed
  pub rows : List ℕ
  pub durable : List ℕ
  -- the callbacks that have been called
  pub called : List Callback
  -- does the coming COMMIT fail? (no entry: it does not)
  pub commits : List Bool

-- `in_atomic`
unfoldable pub in_atomic : Session → Bool
in_atomic s = ltb 0 s.depth

-- `require_atomic`
unfoldable pub require_atomic : Session → Result TransactionError ⊤
unfolding in_atomic
require_atomic s = if in_atomic s then ok tt else err not_in_atomic

abbrev pub Outcome : Type 0
Outcome = Result TransactionError ⊤ × Session

-- `after_commit`
unfoldable pub after_commit : Callback → Session → Outcome
unfolding in_atomic
after_commit callback s =
    if in_atomic s then (ok tt, record s { pending = s.pending ++ callback ∷ [] }) else (
      if callback.fails then err callback_failed else ok tt,
      record s { called = s.called ++ callback ∷ [] },
    )

-- `_run_pending`: each is called in turn, and an exception of one is logged and passed over
unfoldable pub run_pending : Session → Session
run_pending s = record s { pending = []; called = s.called ++ s.pending }

abbrev pub next_fails : List Bool → Bool
next_fails [] = false
next_fails (f ∷ _) = f

abbrev pub later : List Bool → List Bool
later [] = []
later (_ ∷ fs) = fs

-- `state["pending"].clear(); await db.rollback()`, and the depth of before
unfoldable pub rolled_back : Session → Session
rolled_back s = record s { depth = s.depth - 1; pending = []; rows = s.durable }

-- the end of the outermost block, after a body that did not raise
unfoldable pub finish : Session → Outcome
unfolding rolled_back run_pending
finish s =
    let tried = record s { commits = later s.commits } in
    if next_fails s.commits
    then (err commit_failed, rolled_back tried)
    else (ok tt, run_pending (record tried { durable = s.rows; depth = s.depth - 1 }))

-- a cancelled body: the savepoint of the block goes back to the rows of before, and `finally` to the
-- depth; `except Exception` is passed by, so that nothing is cleared
unfoldable pub abandoned : List ℕ → Session → Session
abandoned before s = record s { depth = s.depth - 1; rows = before }

-- the end of the outermost block, which began with these rows
unfoldable pub close : List ℕ → Outcome → Outcome
unfolding finish rolled_back abandoned
close before (ok _, s) = finish s
close before (err cancelled, s) = (err cancelled, abandoned before s)
close before (err e, s) = (err e, rolled_back s)

-- `atomic`: a nested block joins the outer one
unfoldable pub atomic : (Session → Outcome) → Session → Outcome
unfolding close in_atomic
atomic body s =
    if in_atomic s then body s else close s.rows (body (record s { depth = s.depth + 1 }))

abbrev pub and_then : Outcome → (Session → Outcome) → Outcome
and_then (ok _, s) next = next s
and_then (err e, s) next = (err e, s)

abbrev pub swallowed : Outcome → Outcome
swallowed (err cancelled, s) = (err cancelled, s)
swallowed (_, s) = (ok tt, s)

unfoldable pub exec : Program → Session → Outcome
unfolding require_atomic after_commit atomic
exec (write row) s =
    if in_atomic s then (ok tt, record s { rows = s.rows ++ row ∷ [] }) else (require_atomic s, s)
exec (register callback) s = after_commit callback s
exec (block p) s = atomic (exec p) s
exec fail s = (err raised, s)
exec cancel s = (err cancelled, s)
exec (seq p q) s = and_then (exec p s) (exec q)
exec (guarded p) s = swallowed (exec p s)
