-- ===== src/Auth/History.antt =====
-- Sequences of requests to the account service, with the time that passes between them and the
-- outages of the services that it calls.
use heofberu_backend.Prelude.{ℕ, ◌+◌, Bool, List, [], ◌∷◌, Option}
use heofberu_backend.Auth.World.{World}
use heofberu_backend.Auth.Service.{
  Outside, login, refresh_tokens, reset_password, logout, get_current_user,
}

pub data Event : Type 0 where
  logs_in : ℕ → ℕ → Event
  refreshes : ℕ → Event
  resets : ℕ → ℕ → Event
  logs_out : Option ℕ → Option ℕ → Event
  calls : Option ℕ → Event
  -- the time passes
  waits : ℕ → Event
  -- the outcomes of the outside calls to come change
  faults : List Bool → Event

-- the state after an event, whatever its answer
unfoldable pub run : Outside → Event → World → World
unfolding login refresh_tokens reset_password logout get_current_user
run o (logs_in address password) w = (login o address password w).1
run o (refreshes token) w = (refresh_tokens o token w).1
run o (resets token password) w = (reset_password o token password w).1
run o (logs_out access_token refresh_token) w = (logout o access_token refresh_token w).1
run o (calls token) w = (get_current_user o token w).1
run o (waits n) w = record w { clock = w.clock + n }
run o (faults fs) w = record w { faults = fs }

unfoldable pub run_all : Outside → List Event → World → World
unfolding run
run_all o [] w = w
run_all o (e ∷ es) w = run_all o es (run o e w)
