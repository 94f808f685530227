-- ===== src/Client/Finish.antt =====
-- dashboard/utils/api_client.py: a method of the client depends on its session only by the answer
-- to one call.
use netdeploy.Base.{◌≡◌, refl, ap, ◌∙◌, sym, true, false}
use netdeploy.Value.{Value, null, bool, arr, nil}
use netdeploy.Py.{Py, ok, ◌>>=◌, ◌>>◌, get}
use netdeploy.Client
use netdeploy.Client.Session.{Response, Http, Client, raise_for_status, try_except, answer}
use netdeploy.Client.Asks.{Ask, perform, call_of}

-- what a method makes of the answer
finish : Ask → Py Response → Py Value
finish Ask.health_check r = try_except (r >>= Client.is_healthy) (λ e. ok (bool false))
finish Ask.list_devices r = answer (arr nil) r
finish (Ask.get_device _) r = answer null r
finish (Ask.create_device _) r = answer null r
finish (Ask.update_device _ _) r = answer null r
finish (Ask.delete_device _) r =
    try_except (r >>= λ x. raise_for_status x >> ok (bool true)) (λ e. ok (bool false))
finish (Ask.check_device_health _) r = answer null r
finish (Ask.sync_device _) r = answer null r
finish (Ask.list_deployments _ _) r = answer (arr nil) r
finish (Ask.get_deployment _) r = answer null r
finish (Ask.get_deployment_logs _) r = answer null r
finish (Ask.get_deployment_snapshot _ _) r = answer null r
finish (Ask.trigger_deployment _ _ _) r = Client.trigger_result r >>= Client.batch_id_of
finish (Ask.trigger_deployment_detailed _ _ _) r = Client.trigger_result r
finish (Ask.rollback_deployment _ _) r =
    try_except (r >>= λ x. raise_for_status x >> (x.json >>= λ v. get v "task_id" null))
      (λ e. ok null)
finish (Ask.get_batch _) r = answer null r
finish (Ask.create_config _ _ _) r = answer null r
finish (Ask.validate_config _ _) r = answer null r
finish (Ask.get_config_history _ _) r = answer (arr nil) r
finish (Ask.get_config_diff _) r = answer null r
finish (Ask.get_audit_log _ _ _ _) r = answer (arr nil) r

perform-finish :
    (http : Http) (c : Client) (ask : Ask) → perform http c ask ≡ finish ask (http (call_of c ask))
unfolding perform finish call_of Client.health_check Client.list_devices Client.get_device
    Client.create_device Client.update_device Client.delete_device Client.check_device_health
    Client.sync_device Client.list_deployments Client.get_deployment Client.get_deployment_logs
    Client.get_deployment_snapshot Client.trigger_deployment Client.trigger_deployment_detailed
    Client.rollback_deployment Client.get_batch Client.create_config Client.validate_config
    Client.get_config_history Client.get_config_diff Client.get_audit_log
perform-finish http c Ask.health_check = refl
perform-finish http c Ask.list_devices = refl
perform-finish http c (Ask.get_device device_id) = refl
perform-finish http c (Ask.create_device device_data) = refl
perform-finish http c (Ask.update_device device_id updates) = refl
perform-finish http c (Ask.delete_device device_id) = refl
perform-finish http c (Ask.check_device_health device_id) = refl
perform-finish http c (Ask.sync_device device_id) = refl
perform-finish http c (Ask.list_deployments limit status) = refl
perform-finish http c (Ask.get_deployment deployment_id) = refl
perform-finish http c (Ask.get_deployment_logs deployment_id) = refl
perform-finish http c (Ask.get_deployment_snapshot deployment_id device_id) = refl
perform-finish http c (Ask.trigger_deployment device_ids config_version strategy) = refl
perform-finish http c (Ask.trigger_deployment_detailed device_ids config_version strategy) = refl
perform-finish http c (Ask.rollback_deployment deployment_id reason) = refl
perform-finish http c (Ask.get_batch batch_id) = refl
perform-finish http c (Ask.create_config device_id desired_state description) = refl
perform-finish http c (Ask.validate_config device_id desired_state) = refl
perform-finish http c (Ask.get_config_history device_id limit) = refl
perform-finish http c (Ask.get_config_diff device_id) = refl
perform-finish http c (Ask.get_audit_log user action resource_type limit) = refl

-- Sessions that answer the call of a method alike make no difference to it.
pub perform_alike :
    (http http' : Http) (c : Client) (ask : Ask)
    → http (call_of c ask) ≡ http' (call_of c ask)
    → perform http c ask ≡ perform http' c ask
perform_alike http http' c ask e =
    perform-finish http c ask ∙ (ap (finish ask) e ∙ sym (perform-finish http' c ask))
