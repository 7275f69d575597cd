-- ===== src/Core/Transaction/Atomicity.antt =====
-- All or nothing.
use heofberu_backend.Prelude.{
  ◌⊎◌, inl, inr, ℕ, ◌+◌, ◌≡◌, refl, ap, sym, ◌∙◌, true, List, [], ◌∷◌, ◌++◌, if◌then◌else◌, arith,
  append_assoc, append-nil,
}
use heofberu_backend.Prelude.Result.{⊤, Result, ok, err}
use heofberu_backend.Core.Transaction.{
  Callback, Program, write, register, block, fail, cancel, seq, guarded, TransactionError, raised,
  cancelled, not_in_atomic, callback_failed, commit_failed, Session, in_atomic, Outcome,
  after_commit, run_pending, next_fails, later, rolled_back, abandoned, finish, close, atomic,
  and_then, swallowed, exec,
}

-- what a program means: does it raise, the rows that it writes and the callbacks that it registers
pub record Effect : Type 0 where
  pub answer : Result TransactionError ⊤
  pub written : List ℕ
  pub registered : List Callback

abbrev pub then_effect : Effect → Effect → Effect
then_effect a b = elim a.answer [
  | err e ↦ a
  | ok _ ↦ record {
    answer = b.answer;
    written = a.written ++ b.written;
    registered = a.registered ++ b.registered;
  }
]

-- an `except Exception` catches all but a cancellation
abbrev pub unless_cancelled : Result TransactionError ⊤ → Result TransactionError ⊤
unless_cancelled (err cancelled) = err cancelled
unless_cancelled _ = ok tt

-- read off the program alone, with no session
unfoldable pub effect : Program → Effect
effect (write row) = record { answer = ok tt; written = row ∷ []; registered = [] }
effect (register callback) = record { answer = ok tt; written = []; registered = callback ∷ [] }
effect (block p) = effect p
effect fail = record { answer = err raised; written = []; registered = [] }
effect cancel = record { answer = err cancelled; written = []; registered = [] }
effect (seq p q) = then_effect (effect p) (effect q)
effect (guarded p) = record (effect p) { answer = unless_cancelled (effect p).answer }

abbrev pub inside : Effect → Session → Outcome
inside e s =
    (e.answer, record s { rows = s.rows ++ e.written; pending = s.pending ++ e.registered })

joined :
    (s : Session) (w w' : List ℕ) (c c' : List Callback)
    → ◌≡◌ {A = Session}
        (record s { rows = s.rows ++ w ++ w'; pending = s.pending ++ c ++ c' })
        (record s { rows = s.rows ++ (w ++ w'); pending = s.pending ++ (c ++ c') })
joined s w w' c c' = rw (append_assoc s.rows w w') (rw (append_assoc s.pending c c') refl)

and_then-inside :
    (answer : Result TransactionError ⊤) (w : List ℕ) (c : List Callback) (b : Effect) (s : Session)
    (next : Session → Outcome)
    → next (record s { rows = s.rows ++ w; pending = s.pending ++ c })
      ≡ inside b (record s { rows = s.rows ++ w; pending = s.pending ++ c })
    → and_then (inside (record { answer = answer; written = w; registered = c }) s) next
      ≡ inside (then_effect (record { answer = answer; written = w; registered = c }) b) s
and_then-inside (ok tt) w c b s next h =
    h ∙ ap (λ t. (b.answer, t)) (joined s w b.written c b.registered)
and_then-inside (err e) w c b s next h = refl

unchanged :
    (s : Session)
    → ◌≡◌ {A = Session} (record s { rows = s.rows ++ []; pending = s.pending ++ [] }) s
unchanged s = rw (append-nil s.rows) (rw (append-nil s.pending) refl)

swallowed-inside :
    (answer : Result TransactionError ⊤) (s : Session)
    → swallowed (answer, s) ≡ (unless_cancelled answer, s)
swallowed-inside answer s = ground arith

-- inside a block a program does what it means, and calls nothing
exec-inside : (p : Program) (s : Session) → in_atomic s ≡ true → exec p s ≡ inside (effect p) s
unfolding exec effect after_commit atomic in_atomic
exec-inside (write row) s h = ground (arith, append-nil s.pending)
exec-inside (register callback) s h = ground (arith, append-nil s.rows)
exec-inside (block p) s h = ground (arith, exec-inside p s h)
exec-inside fail s h = ap (λ t. (err raised, t)) (sym (unchanged s))
exec-inside cancel s h = ap (λ t. (err cancelled, t)) (sym (unchanged s))
exec-inside (seq p q) s h =
    let e = effect p in
    let mid : Session = record s {
      rows = s.rows ++ e.written;
      pending = s.pending ++ e.registered;
    } in
    rw (exec-inside p s h)
      (and_then-inside e.answer e.written e.registered (effect q) s (exec q) (exec-inside q mid h))
exec-inside (guarded p) s h = rw (exec-inside p s h) (swallowed-inside (effect p).answer _)

-- between transactions the session sees what is committed, and nothing is pending
abbrev pub IsIdle : Session → Type 0
IsIdle s = (s.depth ≡ 0) × (s.pending ≡ []) × (s.rows ≡ s.durable)

-- the outcome that a transaction with an effect promises
abbrev pub promised : Effect → Session → Outcome
promised e s = elim e.answer [
  | err cancelled ↦ (err cancelled, record s { pending = e.registered })
  | err x ↦ (err x, s)
  | ok _ ↦
      let tried = record s { commits = later s.commits } in
      if next_fails s.commits then (err commit_failed, tried) else (
        ok tt,
        record tried {
          rows = s.durable ++ e.written;
          durable = s.durable ++ e.written;
          called = s.called ++ e.registered;
        },
      )
]

close-promised :
    (e : Effect) (s : Session)
    → IsIdle s
    → close s.rows (inside e (record s { depth = s.depth + 1 })) ≡ promised e s
unfolding close finish rolled_back run_pending abandoned
close-promised e s (outside, clear, clean) = ground (arith, outside, clear, clean)

deeper : (s : Session) → in_atomic (record s { depth = s.depth + 1 }) ≡ true
unfolding in_atomic
deeper s = ground arith

-- An outermost block that starts with nothing pending and with the session at what is committed
-- keeps its promise, whatever its body does in whatever nesting: where the body raises or the
-- commit fails, the database and the session are as before and no callback is called; where it is
-- cancelled, too, but that the callbacks which it registered stay pending; else all
-- that the body wrote is committed, and then each callback that it registered is called once, in
-- the order of registration.
pub block-promised :
    (p : Program) (s : Session) → IsIdle s → exec (block p) s ≡ promised (effect p) s
unfolding exec atomic in_atomic
block-promised p s (outside, clear, clean) =
    let s₁ : Session = record s { depth = s.depth + 1 } in
    ground (
      arith,
      outside,
      exec-inside p s₁ (deeper s),
      close-promised (effect p) s (outside, clear, clean),
    )

-- after a cancellation the session sees what is committed, and callbacks may be pending
abbrev pub IsLeft : Outcome → Type 0
IsLeft o = (o.0 ≡ err cancelled) × (o.1.depth ≡ 0) × (o.1.rows ≡ o.1.durable)

promised-at :
    (answer : Result TransactionError ⊤) (w : List ℕ) (c : List Callback) (s : Session)
    → let e : Effect = record { answer = answer; written = w; registered = c } in
      IsIdle s → IsIdle (promised e s).1 ⊎ IsLeft (promised e s)
promised-at (ok _) w c s (outside, clear, clean) = inl (ground (arith, outside, clear, clean))
promised-at (err cancelled) w c s (outside, clear, clean) = inr (refl, outside, clean)
promised-at (err not_in_atomic) w c s h = inl h
promised-at (err raised) w c s h = inl h
promised-at (err commit_failed) w c s h = inl h
promised-at (err callback_failed) w c s h = inl h

promised-IsIdle :
    (e : Effect) (s : Session) → IsIdle s → IsIdle (promised e s).1 ⊎ IsLeft (promised e s)
promised-IsIdle e s h = promised-at e.answer e.written e.registered s h

then-IsIdle :
    (o : Outcome) (next : Session → Outcome)
    → IsIdle o.1 ⊎ IsLeft o
    → ((s : Session) → IsIdle s → IsIdle (next s).1 ⊎ IsLeft (next s))
    → IsIdle (and_then o next).1 ⊎ IsLeft (and_then o next)
then-IsIdle (ok _, s) next (inl h) keeps = keeps s h
then-IsIdle (ok _, s) next (inr (is, _, _)) keeps = cc
then-IsIdle (err e, s) next h keeps = h

swallowed-IsIdle :
    (o : Outcome) → IsIdle o.1 ⊎ IsLeft o → IsIdle (swallowed o).1 ⊎ IsLeft (swallowed o)
swallowed-IsIdle (ok _, s) (inl h) = inl h
swallowed-IsIdle (ok _, s) (inr (is, _, _)) = cc
swallowed-IsIdle (err cancelled, s) h = h
swallowed-IsIdle (err not_in_atomic, s) (inl h) = inl h
swallowed-IsIdle (err raised, s) (inl h) = inl h
swallowed-IsIdle (err commit_failed, s) (inl h) = inl h
swallowed-IsIdle (err callback_failed, s) (inl h) = inl h
swallowed-IsIdle (err not_in_atomic, s) (inr (is, _, _)) = absurd (ground (arith, is))
swallowed-IsIdle (err raised, s) (inr (is, _, _)) = absurd (ground (arith, is))
swallowed-IsIdle (err commit_failed, s) (inr (is, _, _)) = absurd (ground (arith, is))
swallowed-IsIdle (err callback_failed, s) (inr (is, _, _)) = absurd (ground (arith, is))

-- A program that starts between transactions ends between transactions, whether it raises or not:
-- no block is left open, nothing is left pending, and the session sees what is committed; where it is
-- cancelled, only callbacks may be left pending.
pub exec-IsIdle : (p : Program) (s : Session) → IsIdle s → IsIdle (exec p s).1 ⊎ IsLeft (exec p s)
unfolding exec after_commit in_atomic
exec-IsIdle (write row) s (outside, clear, clean) = inl (ground (arith, outside, clear, clean))
exec-IsIdle (register callback) s (outside, clear, clean) =
    inl (ground (arith, outside, clear, clean))
exec-IsIdle (block p) s h = rw (block-promised p s h) (promised-IsIdle (effect p) s h)
exec-IsIdle fail s h = inl h
exec-IsIdle cancel s h = inl h
exec-IsIdle (seq p q) s h = then-IsIdle (exec p s) (exec q) (exec-IsIdle p s h) (exec-IsIdle q)
exec-IsIdle (guarded p) s h = swallowed-IsIdle (exec p s) (exec-IsIdle p s h)
