-- ===== src/Core/Transaction/Tests.antt =====
-- One block at a small session: two writes, a nested block and a callback, then a second COMMIT.
use heofberu_backend.Prelude.{◌⊎◌, ◌≡◌, refl, true, [], ◌∷◌}
use heofberu_backend.Core.Transaction.{
  Callback, Program, write, register, block, fail, cancel, seq, guarded, Session, exec,
}
use heofberu_backend.Core.Transaction.Atomicity.{
  effect, IsIdle, IsLeft, promised, block-promised, exec-IsIdle,
}

abbrev purge : Callback
purge = record { name = 1; fails = true }

abbrev saves : Program
saves = seq (write 4) (seq (block (seq (register purge) (write 5))) (guarded (seq (write 6) fail)))

abbrev quiet : Session
quiet = record {
  depth = 0;
  pending = [];
  rows = 3 ∷ [];
  durable = 3 ∷ [];
  called = [];
  commits = [];
}

quiet-IsIdle : IsIdle quiet
quiet-IsIdle = (refl, refl, refl)

block-promised_example : exec (block saves) quiet ≡ promised (effect saves) quiet
block-promised_example = block-promised saves quiet quiet-IsIdle

exec-IsIdle_example :
    IsIdle (exec (seq (block saves) (block (guarded cancel))) quiet).1
    ⊎ IsLeft (exec (seq (block saves) (block (guarded cancel))) quiet)
exec-IsIdle_example = exec-IsIdle (seq (block saves) (block (guarded cancel))) quiet quiet-IsIdle
