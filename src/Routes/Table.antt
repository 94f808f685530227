-- ===== src/Routes/Table.antt =====
-- api/main.py and the decorators of api/routes: which handler a request is for. The order is that
-- of `include_router`, with the handlers of a router in the order of its file.
use netdeploy.Base.{
  Bool, true, false, List, [], ◌∷◌, ◌++◌, Option, none, some, if◌then◌else◌, String,
}
use netdeploy.Text.{Text, codes, text_eq, split_on, starts_with}
use netdeploy.Client.Session.{Verb}

pub data Handler : Type 0 where
  login : Handler
  get_me : Handler
  create_device : Handler
  list_devices : Handler
  get_device : Handler
  update_device : Handler
  delete_device : Handler
  device_health : Handler
  sync_device : Handler
  validate_config : Handler
  validate_config_batch : Handler
  validate_config_async : Handler
  validate_status : Handler
  deploy_config : Handler
  get_config_diff : Handler
  config_history : Handler
  list_configs : Handler
  create_config : Handler
  trigger_deployment : Handler
  list_deployments : Handler
  get_deployment : Handler
  get_batch : Handler
  rollback_deployment : Handler
  get_deployment_logs : Handler
  get_deployment_snapshot : Handler
  list_audit_log : Handler
  get_audit_entry : Handler
  list_audit_log_alias : Handler
  prometheus_metrics : Handler
  health_check : Handler
  root : Handler

pub record Route : Type 0 where
  pub verb : Verb
  pub template : Text
  pub handler : Handler

-- the routes of a router, behind its prefix
route : Text → Verb → String → Handler → Route
route pre verb path handler = record {
  verb = verb;
  template = pre ++ codes path;
  handler = handler;
}

auth_routes : List Route
unfolding route
auth_routes =
    let pre = codes "/api/auth" in
    route pre Verb.post "/token" login ∷ route pre Verb.get "/me" get_me ∷ []

device_routes : List Route
unfolding route
device_routes =
    let pre = codes "/api/devices" in
    route pre Verb.post "/" create_device
    ∷ route pre Verb.get "/" list_devices
    ∷ route pre Verb.get "/{device_id}" get_device
    ∷ route pre Verb.put "/{device_id}" update_device
    ∷ route pre Verb.delete "/{device_id}" delete_device
    ∷ route pre Verb.get "/{device_id}/health" device_health
    ∷ route pre Verb.post "/{device_id}/sync" sync_device
    ∷ []

config_routes : List Route
unfolding route
config_routes =
    let pre = codes "/api/configs" in
    route pre Verb.post "/validate" validate_config
    ∷ route pre Verb.post "/validate-batch" validate_config_batch
    ∷ route pre Verb.post "/validate-async" validate_config_async
    ∷ route pre Verb.get "/validate-status/{task_id}" validate_status
    ∷ route pre Verb.post "/deploy" deploy_config
    ∷ route pre Verb.get "/diff" get_config_diff
    ∷ route pre Verb.get "/history" config_history
    ∷ route pre Verb.get "/" list_configs
    ∷ route pre Verb.post "/" create_config
    ∷ []

deployment_routes : List Route
unfolding route
deployment_routes =
    let pre = codes "/api/deployments" in
    route pre Verb.post "/" trigger_deployment
    ∷ route pre Verb.get "/" list_deployments
    ∷ route pre Verb.get "/{deployment_id}" get_deployment
    ∷ route pre Verb.get "/batch/{batch_id}" get_batch
    ∷ route pre Verb.post "/{deployment_id}/rollback" rollback_deployment
    ∷ route pre Verb.get "/{deployment_id}/logs" get_deployment_logs
    ∷ route pre Verb.get "/{deployment_id}/snapshot" get_deployment_snapshot
    ∷ []

audit_routes : List Route
unfolding route
audit_routes =
    route (codes "/api/audit-log") Verb.get "/" list_audit_log
    ∷ route (codes "/api/audit-log") Verb.get "/{log_id}" get_audit_entry
    ∷ route (codes "/api/audit") Verb.get "/" list_audit_log_alias
    ∷ []

app_routes : List Route
unfolding route
app_routes =
    route [] Verb.get "/metrics" prometheus_metrics
    ∷ route [] Verb.get "/health" health_check
    ∷ route [] Verb.get "/" root
    ∷ []

unfoldable pub routes : List Route
unfolding auth_routes device_routes config_routes deployment_routes audit_routes app_routes
routes =
    auth_routes
    ++ (device_routes ++ (config_routes ++ (deployment_routes ++ (audit_routes ++ app_routes))))

-- The documentation of FastAPI: `{name}` stands for one part of the path, which is not empty, and
-- a request goes to the first route of its method whose template fits.
same_verb : Verb → Verb → Bool
same_verb Verb.get Verb.get = true
same_verb Verb.post Verb.post = true
same_verb Verb.put Verb.put = true
same_verb Verb.delete Verb.delete = true
same_verb _ _ = false

-- the parts that the parameters of a template stand for, if it fits
unfoldable pub fitted : List Text → List Text → Option (List Text)
fitted [] [] = some []
fitted (p ∷ ps) [] = none
fitted [] (t ∷ ts) = none
fitted (p ∷ ps) ([] ∷ ts) = let rest = fitted ps ts in if text_eq p [] then rest else none
fitted (p ∷ ps) ((c ∷ t) ∷ ts) =
    let rest = fitted ps ts in
    if starts_with (codes "{") p
    then elim rest [ none ↦ none | some vs ↦ some ((c ∷ t) ∷ vs) ]
    else if text_eq p (c ∷ t)
    then rest
    else none

-- the handler and its path parameters
unfoldable pub first_fit : List Route → Verb → List Text → Option (Handler × List Text)
unfolding same_verb fitted split_on
first_fit [] verb parts = none
first_fit (r ∷ rs) verb parts =
    let rest = first_fit rs verb parts in
    if same_verb r.verb verb
    then elim (fitted (split_on b'/' r.template) parts) [
      | none ↦ rest
      | some vs ↦ some (r.handler, vs)
    ]
    else rest
