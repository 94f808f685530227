-- ===== src/Client/Answers.antt =====
-- dashboard/utils/api_client.py: the methods of the client raise nothing.
use netdeploy.Base.{◌≡◌, refl, true, false, Bool-cases, inl, inr, leb, if◌then◌else◌, pos}
use mathlib.Core.Path.{subst}
use netdeploy.Value.{Value, null, bool, int, arr, obj, nil, field, end, truthy, lookup}
use netdeploy.Py.{Py, ok, raised, Exn, ◌>>=◌, >>=-eq-ok, get}
use netdeploy.Client
use netdeploy.Client.{
  trigger_result, trigger_refused, trigger_accepted, trigger_failed, batch_id_of, detail_of,
}
use netdeploy.Client.Session.{Response, Http, Client, try_except}
use netdeploy.Client.Asks.{Ask, perform}

abbrev Answers : Py Value → Type 0
Answers p = (v : Value) × (p ≡ ok v)

try_except-Answers :
    (p : Py Value) (handler : Exn → Py Value)
    → ((e : Exn) → Answers (handler e))
    → Answers (try_except p handler)
unfolding try_except
try_except-Answers (ok v) handler h = (v, refl)
try_except-Answers (raised e) handler h = h e

-- A dict of a deployment that has its key "success".
Ready : Value → Type 0
Ready v = Answers (batch_id_of v)

accepted-Ready : (r : Response) (v : Value) → trigger_accepted r ≡ ok v → Ready v
unfolding trigger_accepted Ready batch_id_of get truthy lookup ◌>>=◌
accepted-Ready r v e =
    let (answered, there, e₁) = >>=-eq-ok r.json _ e in
    let (batch_id, read, e₂) = >>=-eq-ok (get answered "batch_id" null) _ e₁ in
    let same : obj
          (field "success" (bool true) (field "batch_id" batch_id (field "data" answered end)))
        ≡ v =
      cc in
    subst (λ w. Answers (batch_id_of w)) same (batch_id, refl)

refused-Ready : (r : Response) (v : Value) → trigger_refused r ≡ ok v → Ready v
unfolding trigger_refused Ready batch_id_of get truthy lookup ◌>>=◌
refused-Ready r v e =
    let (detail, there, e₁) = >>=-eq-ok (detail_of r) _ e in
    let same : obj (
          field "success" (bool false)
            (field "status_code" (int (pos r.status_code)) (field "detail" detail end)))
        ≡ v =
      cc in
    subst (λ w. Answers (batch_id_of w)) same (null, refl)

handled-Ready :
    (p : Py Value)
    → ((v : Value) → p ≡ ok v → Ready v)
    → Answers (try_except p trigger_failed >>= batch_id_of)
unfolding try_except trigger_failed batch_id_of get truthy lookup ◌>>=◌ Ready
handled-Ready (ok v) h = h v refl
handled-Ready (raised e) h = (null, refl)

result-Ready :
    (response : Py Response) (v : Value)
    → (response >>= λ r. if leb 400 r.status_code then trigger_refused r else trigger_accepted r)
      ≡ ok v
    → Ready v
unfolding ◌>>=◌
result-Ready (raised e) v h = cc
result-Ready (ok r) v h = elim (Bool-cases (leb 400 r.status_code)) [
  | inl bad ↦ refused-Ready r v (cc)
  | inr good ↦ accepted-Ready r v (cc)
]

batch_id-Answers : (response : Py Response) → Answers (trigger_result response >>= batch_id_of)
unfolding trigger_result
batch_id-Answers response = handled-Ready _ (result-Ready response)

trigger_failed-Answers : (e : Exn) → Answers (trigger_failed e)
unfolding trigger_failed
trigger_failed-Answers e = (_, refl)

-- Every method of the client returns a value, whatever the session answers or raises.
pub perform-Answers :
    (http : Http) (c : Client) (ask : Ask) → (v : Value) × (perform http c ask ≡ ok v)
unfolding perform trigger_result Client.health_check Client.list_devices Client.get_device
    Client.create_device Client.update_device Client.delete_device Client.check_device_health
    Client.sync_device Client.list_deployments Client.get_deployment Client.get_deployment_logs
    Client.get_deployment_snapshot Client.trigger_deployment Client.trigger_deployment_detailed
    Client.rollback_deployment Client.get_batch Client.create_config Client.validate_config
    Client.get_config_history Client.get_config_diff Client.get_audit_log
perform-Answers http c Ask.health_check = try_except-Answers _ _ (λ e. (bool false, refl))
perform-Answers http c Ask.list_devices = try_except-Answers _ _ (λ e. (arr nil, refl))
perform-Answers http c (Ask.get_device device_id) = try_except-Answers _ _ (λ e. (null, refl))
perform-Answers http c (Ask.create_device device_data) = try_except-Answers _ _ (λ e. (null, refl))
perform-Answers http c (Ask.update_device device_id updates) =
    try_except-Answers _ _ (λ e. (null, refl))
perform-Answers http c (Ask.delete_device device_id) =
    try_except-Answers _ _ (λ e. (bool false, refl))
perform-Answers http c (Ask.check_device_health device_id) =
    try_except-Answers _ _ (λ e. (null, refl))
perform-Answers http c (Ask.sync_device device_id) = try_except-Answers _ _ (λ e. (null, refl))
perform-Answers http c (Ask.list_deployments limit status) =
    try_except-Answers _ _ (λ e. (arr nil, refl))
perform-Answers http c (Ask.get_deployment deployment_id) =
    try_except-Answers _ _ (λ e. (null, refl))
perform-Answers http c (Ask.get_deployment_logs deployment_id) =
    try_except-Answers _ _ (λ e. (null, refl))
perform-Answers http c (Ask.get_deployment_snapshot deployment_id device_id) =
    try_except-Answers _ _ (λ e. (null, refl))
perform-Answers http c (Ask.trigger_deployment device_ids config_version strategy) =
    batch_id-Answers (http (Client.trigger_deployment_call c device_ids config_version strategy))
perform-Answers http c (Ask.trigger_deployment_detailed device_ids config_version strategy) =
    try_except-Answers _ _ trigger_failed-Answers
perform-Answers http c (Ask.rollback_deployment deployment_id reason) =
    try_except-Answers _ _ (λ e. (null, refl))
perform-Answers http c (Ask.get_batch batch_id) = try_except-Answers _ _ (λ e. (null, refl))
perform-Answers http c (Ask.create_config device_id desired_state description) =
    try_except-Answers _ _ (λ e. (null, refl))
perform-Answers http c (Ask.validate_config device_id desired_state) =
    try_except-Answers _ _ (λ e. (null, refl))
perform-Answers http c (Ask.get_config_history device_id limit) =
    try_except-Answers _ _ (λ e. (arr nil, refl))
perform-Answers http c (Ask.get_config_diff device_id) = try_except-Answers _ _ (λ e. (null, refl))
perform-Answers http c (Ask.get_audit_log user action resource_type limit) =
    try_except-Answers _ _ (λ e. (arr nil, refl))
