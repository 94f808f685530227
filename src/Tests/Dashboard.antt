-- ===== src/Tests/Dashboard.antt =====
-- The dashboard's client against a session that answers with the handler's number of parameters.
use netdeploy.Base.{◌≡◌, refl, true, List, [], Option, none, some, length, pos}
use netdeploy.Text.{Text, codes, split_on}
use netdeploy.Value.{Value, int, bool}
use netdeploy.Py.{Py, ok, raised, runtime_error}
use netdeploy.Client
use netdeploy.Client.Session.{Verb, Client, Call, Response, new_client}
use netdeploy.Client.Asks.{Ask, perform, target}
use netdeploy.Client.Answers.{perform-Answers}
use netdeploy.Client.Routed.{perform-routed}
use netdeploy.Client.Health.{ok_response, health_check-true}
use netdeploy.Routes.Main
use netdeploy.Routes.Table.{Handler, routes, first_fit}

abbrev client : Client
client = new_client (codes "http://api:8000/") 10

-- the number of path parameters, or an exception where no route fits
abbrev respond : Option (Handler × List Text) → Call → Py Response
respond none call = raised (runtime_error (codes "404"))
respond (some (h, ids)) call = ok (ok_response (int (pos (length ids))) [])

abbrev finds : Verb → Text → Option (Handler × List Text)
finds v path = first_fit routes v (split_on b'/' path)

abbrev logs : Ask
logs = Ask.get_deployment_logs (codes "3f2a-01")

perform-routed_example :
    perform (λ k. respond (finds k.verb k.path) k) client logs
    ≡ perform (λ k. respond (some (target logs)) k) client logs
unfolding netdeploy.Client.Asks.HasIds netdeploy.Client.Asks.is_id
perform-routed_example = perform-routed finds respond client logs (λ v path. refl) refl

perform-Answers_example :
    (v : Value) × (perform (λ k. raised (runtime_error [])) client (Ask.list_deployments 20 none)
      ≡ ok v)
perform-Answers_example =
    perform-Answers (λ k. raised (runtime_error [])) client (Ask.list_deployments 20 none)

health_check-true_example :
    Client.health_check
      (λ call.
        ok (ok_response (Main.health_check (raised (runtime_error [])) (ok tt) (codes "now")) []))
      client
    ≡ ok (bool true)
health_check-true_example =
    health_check-true client (raised (runtime_error [])) (ok tt) (codes "now") []
