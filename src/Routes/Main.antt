-- ===== src/Routes/Main.antt =====
-- api/main.py: the handlers of the application itself. What the connection to the database and the
-- ping of Redis give is an argument.
use netdeploy.Base.{◌&&◌, if◌then◌else◌}
use netdeploy.Text.{Text, codes, text_eq}
use netdeploy.Value.{Value, str, obj, end, field}
use netdeploy.Py.{Py, ok, raised}

-- `"ok"`, or `"error"` if the attempt raised
service_status : Py (Unit {0}) → Text
service_status (ok u) = codes "ok"
service_status (raised e) = codes "error"

overall : Text → Text → Text
unfolding text_eq
overall db_status redis_status =
    if text_eq db_status (codes "ok") && text_eq redis_status (codes "ok")
    then codes "healthy"
    else codes "degraded"

unfoldable pub health_check : Py (Unit {0}) → Py (Unit {0}) → Text → Value
unfolding service_status overall
health_check database redis timestamp =
    let db_status = service_status database in
    let redis_status = service_status redis in
    obj (
      field "status" (str (overall db_status redis_status)) (
        field "version" (str (codes "1.0.0")) (
          field "database" (str db_status)
            (field "redis" (str redis_status) (field "timestamp" (str timestamp) end)))))

unfoldable pub root : Value
root = obj (field "message" (str (codes "NetDeploy API — visit /docs")) end)
