-- ===== src/Client/Health.antt =====
-- dashboard/utils/api_client.py and api/main.py: what the dashboard makes of the liveness check.
use netdeploy.Base.{◌≡◌, refl, true, none}
use netdeploy.Text.{Text}
use netdeploy.Value.{Value, bool}
use netdeploy.Py.{Py, ok, raised}
use netdeploy.Client
use netdeploy.Client.Session.{Client, Response}
use netdeploy.Routes.Main

-- a response with status 200
abbrev pub ok_response : Value → Text → Response
ok_response v text = record { status_code = 200; error = none; json = ok v; text = text }

-- Whatever the database and Redis do, the client takes the API's answer to the liveness check for
-- that of a healthy API, also where the answer says that the API is degraded.
pub health_check-true :
    (c : Client) (database redis : Py (Unit {0})) (timestamp text : Text)
    → Client.health_check
        (λ call. ok (ok_response (Main.health_check database redis timestamp) text))
        c
      ≡ ok (bool true)
unfolding Client.health_check Client.is_healthy Main.health_check
health_check-true c (ok u) (ok v) timestamp text = refl
health_check-true c (ok u) (raised e) timestamp text = refl
health_check-true c (raised e) (ok v) timestamp text = refl
health_check-true c (raised e) (raised e') timestamp text = refl
