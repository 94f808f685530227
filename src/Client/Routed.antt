-- ===== src/Client/Routed.antt =====
-- dashboard/utils/api_client.py, api/main.py and api/routes: every call of the client reaches the
-- handler that it is meant for.
use netdeploy.Base.{◌≡◌, refl, ap, ◌∙◌, true, List, [], ◌∷◌, ◌++◌, Option, some}
use netdeploy.Text.{Text, codes, split_on, starts_with, text_eq}
use netdeploy.Client.Session.{Verb, Client, Call, Response}
use netdeploy.Client.Asks.{Ask, call_of, target, HasIds, is_id, perform}
use netdeploy.Client.Paths.{split_on-id, split_on-id-slash, text_eq-batch}
use netdeploy.Client.Finish.{perform_alike}
use netdeploy.Client.Calls.{
  health_check_call, list_devices_call, get_device_call, create_device_call, update_device_call,
  delete_device_call, check_device_health_call, sync_device_call, list_deployments_call,
  get_deployment_call, get_deployment_logs_call, get_deployment_snapshot_call,
  trigger_deployment_call, rollback_deployment_call, get_batch_call, create_config_call,
  validate_config_call, get_config_history_call, get_config_diff_call, get_audit_log_call,
}
use netdeploy.Value.{Value}
use netdeploy.Py.{Py}
use netdeploy.Routes.Table.{Handler, routes, first_fit, fitted}

-- the parts of a path below a router
abbrev below : Text → List Text → List Text
below router parts = [] ∷ codes "api" ∷ router ∷ parts

device_parts :
    (rest : Text)
    → split_on 47 (codes "/api/devices/" ++ rest) ≡ below (codes "devices") (split_on 47 rest)
unfolding split_on
device_parts rest = refl

deployment_parts :
    (rest : Text)
    → split_on 47 (codes "/api/deployments/" ++ rest)
      ≡ below (codes "deployments") (split_on 47 rest)
unfolding split_on
deployment_parts rest = refl

device_sub :
    (id rest : Text)
    → is_id id ≡ true
    → split_on 47 (codes "/api/devices/" ++ (id ++ (47 ∷ rest)))
      ≡ below (codes "devices") (id ∷ split_on 47 rest)
device_sub id rest is = device_parts _ ∙ ap (below (codes "devices")) (split_on-id-slash id rest is)

device_end :
    (id : Text)
    → is_id id ≡ true
    → split_on 47 (codes "/api/devices/" ++ id) ≡ below (codes "devices") (id ∷ [])
device_end id is = device_parts _ ∙ ap (below (codes "devices")) (split_on-id id is)

deployment_sub :
    (id rest : Text)
    → is_id id ≡ true
    → split_on 47 (codes "/api/deployments/" ++ (id ++ (47 ∷ rest)))
      ≡ below (codes "deployments") (id ∷ split_on 47 rest)
deployment_sub id rest is =
    deployment_parts _ ∙ ap (below (codes "deployments")) (split_on-id-slash id rest is)

deployment_end :
    (id : Text)
    → is_id id ≡ true
    → split_on 47 (codes "/api/deployments/" ++ id) ≡ below (codes "deployments") (id ∷ [])
deployment_end id is = deployment_parts _ ∙ ap (below (codes "deployments")) (split_on-id id is)

batch_end :
    (id : Text)
    → is_id id ≡ true
    → split_on 47 (codes "/api/deployments/batch/" ++ id)
      ≡ below (codes "deployments") (codes "batch" ∷ id ∷ [])
unfolding split_on
batch_end id is = ap (λ ps. below (codes "deployments") (codes "batch" ∷ ps)) (split_on-id id is)

-- what the table says of the call of a method
abbrev Fits : Ask → Verb → List Text → Type 0
Fits ask v parts = first_fit routes v parts ≡ some (target ask)

-- the routes of one device and of one deployment
get_device-Fits :
    (id : Text)
    → is_id id ≡ true
    → Fits (Ask.get_device id) Verb.get (below (codes "devices") (id ∷ []))
unfolding routes first_fit fitted is_id text_eq starts_with target
get_device-Fits [] is = cc
get_device-Fits (c ∷ t) is = refl

update_device-Fits :
    (id : Text) (updates : Value)
    → is_id id ≡ true
    → Fits (Ask.update_device id updates) Verb.put (below (codes "devices") (id ∷ []))
unfolding routes first_fit fitted is_id text_eq starts_with target
update_device-Fits [] updates is = cc
update_device-Fits (c ∷ t) updates is = refl

delete_device-Fits :
    (id : Text)
    → is_id id ≡ true
    → Fits (Ask.delete_device id) Verb.delete (below (codes "devices") (id ∷ []))
unfolding routes first_fit fitted is_id text_eq starts_with target
delete_device-Fits [] is = cc
delete_device-Fits (c ∷ t) is = refl

device_health-Fits :
    (id : Text)
    → is_id id ≡ true
    → Fits
        (Ask.check_device_health id)
        Verb.get
        (below (codes "devices") (id ∷ codes "health" ∷ []))
unfolding routes first_fit fitted is_id text_eq starts_with target
device_health-Fits [] is = cc
device_health-Fits (c ∷ t) is = refl

sync_device-Fits :
    (id : Text)
    → is_id id ≡ true
    → Fits (Ask.sync_device id) Verb.post (below (codes "devices") (id ∷ codes "sync" ∷ []))
unfolding routes first_fit fitted is_id text_eq starts_with target
sync_device-Fits [] is = cc
sync_device-Fits (c ∷ t) is = refl

get_deployment-Fits :
    (id : Text)
    → is_id id ≡ true
    → Fits (Ask.get_deployment id) Verb.get (below (codes "deployments") (id ∷ []))
unfolding routes first_fit fitted is_id text_eq starts_with target
get_deployment-Fits [] is = cc
get_deployment-Fits (c ∷ t) is = refl

deployment_logs-Fits :
    (id : Text)
    → is_id id ≡ true
    → Fits
        (Ask.get_deployment_logs id)
        Verb.get
        (below (codes "deployments") (id ∷ codes "logs" ∷ []))
unfolding routes first_fit fitted is_id text_eq starts_with target
deployment_logs-Fits [] is = cc
deployment_logs-Fits (c ∷ t) is = rw (text_eq-batch (c ∷ t) is) refl

deployment_snapshot-Fits :
    (id : Text) (device_id : Option Text)
    → is_id id ≡ true
    → Fits
        (Ask.get_deployment_snapshot id device_id)
        Verb.get
        (below (codes "deployments") (id ∷ codes "snapshot" ∷ []))
unfolding routes first_fit fitted is_id text_eq starts_with target
deployment_snapshot-Fits [] device_id is = cc
deployment_snapshot-Fits (c ∷ t) device_id is = rw (text_eq-batch (c ∷ t) is) refl

rollback_deployment-Fits :
    (id : Text) (reason : Text)
    → is_id id ≡ true
    → Fits
        (Ask.rollback_deployment id reason)
        Verb.post
        (below (codes "deployments") (id ∷ codes "rollback" ∷ []))
unfolding routes first_fit fitted is_id text_eq starts_with target
rollback_deployment-Fits [] reason is = cc
rollback_deployment-Fits (c ∷ t) reason is = refl

get_batch-Fits :
    (id : Text)
    → is_id id ≡ true
    → Fits (Ask.get_batch id) Verb.get (below (codes "deployments") (codes "batch" ∷ id ∷ []))
unfolding routes first_fit fitted is_id text_eq starts_with target
get_batch-Fits [] is = cc
get_batch-Fits (c ∷ t) is = refl

routed :
    (c : Client) (ask : Ask)
    → HasIds ask
    → Fits ask (call_of c ask).verb (split_on 47 (call_of c ask).path)
unfolding call_of HasIds split_on routes first_fit fitted text_eq starts_with target
    health_check_call list_devices_call get_device_call create_device_call update_device_call
    delete_device_call check_device_health_call sync_device_call list_deployments_call
    get_deployment_call get_deployment_logs_call get_deployment_snapshot_call
    trigger_deployment_call rollback_deployment_call get_batch_call create_config_call
    validate_config_call get_config_history_call get_config_diff_call get_audit_log_call
routed c Ask.health_check is = refl
routed c Ask.list_devices is = refl
routed c (Ask.get_device device_id) is =
    ap (first_fit routes Verb.get) (device_end device_id is) ∙ get_device-Fits device_id is
routed c (Ask.create_device device_data) is = refl
routed c (Ask.update_device device_id updates) is =
    ap (first_fit routes Verb.put) (device_end device_id is)
    ∙ update_device-Fits device_id updates is
routed c (Ask.delete_device device_id) is =
    ap (first_fit routes Verb.delete) (device_end device_id is) ∙ delete_device-Fits device_id is
routed c (Ask.check_device_health device_id) is =
    ap (first_fit routes Verb.get) (device_sub device_id (codes "health") is)
    ∙ device_health-Fits device_id is
routed c (Ask.sync_device device_id) is =
    ap (first_fit routes Verb.post) (device_sub device_id (codes "sync") is)
    ∙ sync_device-Fits device_id is
routed c (Ask.list_deployments limit status) is = refl
routed c (Ask.get_deployment deployment_id) is =
    ap (first_fit routes Verb.get) (deployment_end deployment_id is)
    ∙ get_deployment-Fits deployment_id is
routed c (Ask.get_deployment_logs deployment_id) is =
    ap (first_fit routes Verb.get) (deployment_sub deployment_id (codes "logs") is)
    ∙ deployment_logs-Fits deployment_id is
routed c (Ask.get_deployment_snapshot deployment_id device_id) is =
    ap (first_fit routes Verb.get) (deployment_sub deployment_id (codes "snapshot") is)
    ∙ deployment_snapshot-Fits deployment_id device_id is
routed c (Ask.trigger_deployment device_ids config_version strategy) is = refl
routed c (Ask.trigger_deployment_detailed device_ids config_version strategy) is = refl
routed c (Ask.rollback_deployment deployment_id reason) is =
    ap (first_fit routes Verb.post) (deployment_sub deployment_id (codes "rollback") is)
    ∙ rollback_deployment-Fits deployment_id reason is
routed c (Ask.get_batch batch_id) is =
    ap (first_fit routes Verb.get) (batch_end batch_id is) ∙ get_batch-Fits batch_id is
routed c (Ask.create_config device_id desired_state description) is = refl
routed c (Ask.validate_config device_id desired_state) is = refl
routed c (Ask.get_config_history device_id limit) is = refl
routed c (Ask.get_config_diff device_id) is = refl
routed c (Ask.get_audit_log user action resource_type limit) is = refl

-- If the API's framework answers a request by the first route of its table that fits, and the ids
-- in a request of the dashboard are written like UUIDs, then the answer to the client comes from
-- the handler that its method is meant for, with these ids as path parameters.
pub perform-routed :
    (finds : Verb → Text → Option (Handler × List Text))
    (respond : Option (Handler × List Text) → Call → Py Response) (c : Client) (ask : Ask)
    → ((v : Verb) (path : Text) → finds v path ≡ first_fit routes v (split_on b'/' path))
    → HasIds ask
    → perform (λ k. respond (finds k.verb k.path) k) c ask
      ≡ perform (λ k. respond (some (target ask)) k) c ask
perform-routed finds respond c ask first is =
    perform_alike _ _ c ask (ap (λ h. respond h (call_of c ask)) (first _ _ ∙ routed c ask is))
