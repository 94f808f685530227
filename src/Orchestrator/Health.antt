-- ===== src/Orchestrator/Health.antt =====
-- core/orchestrator.py: `_health_check`, which only reads.
use netdeploy.Base.{ℕ, ◌≡◌, refl, Bool, true, false, Option, none, some}
use netdeploy.Py.{ok}
use netdeploy.Db.{Device, find_device}
use netdeploy.Proc.{State, ◌>>=◌, Net, run}
use netdeploy.Orchestrator.Records.{get_device, get_desired_config}
use netdeploy.Orchestrator.Device.{health_check, health_of}

pub run-health_check :
    (net : Net) (id : ℕ) (s : State) → (h : Bool) × (run net (health_check id) s ≡ (ok h, s))
unfolding health_check get_device run ◌>>=◌ health_of get_desired_config
run-health_check net id s = go (find_device id s.db)
  where
    go : (d : Option Device) → (h : Bool) × (run net (health_of id d) s ≡ (ok h, s))
    go none = (false, refl)
    go (some d) = (true, refl)

-- A device that is found unhealthy is not in the table.
pub health_check-missing :
    (net : Net) (id : ℕ) (s : State)
    → run net (health_check id) s ≡ (ok false, s)
    → find_device id s.db ≡ none
unfolding health_check get_device run ◌>>=◌ health_of get_desired_config
health_check-missing net id s e = go (find_device id s.db) e
  where
    go : (d : Option Device) → run net (health_of id d) s ≡ (ok false, s) → d ≡ none
    go none e' = refl
    go (some d) e' = cc
