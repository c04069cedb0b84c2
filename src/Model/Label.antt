-- ===== src/Model/Label.antt =====
-- The labels of internal/model/types/container.go that control how a container is deployed.
use kubedock.Base.{Str}
use kubedock.Base.Text.{codes}

abbrev pub request_cpu : Str
request_cpu = codes "com.joyrex2001.kubedock.request-cpu"

abbrev pub request_memory : Str
request_memory = codes "com.joyrex2001.kubedock.request-memory"

abbrev pub pull_policy : Str
pull_policy = codes "com.joyrex2001.kubedock.pull-policy"

abbrev pub service_account : Str
service_account = codes "com.joyrex2001.kubedock.service-account"

abbrev pub name_prefix : Str
name_prefix = codes "com.joyrex2001.kubedock.name-prefix"

abbrev pub runas_user : Str
runas_user = codes "com.joyrex2001.kubedock.runas-user"

abbrev pub node_selector : Str
node_selector = codes "com.joyrex2001.kubedock.node-selector"

abbrev pub active_deadline_seconds : Str
active_deadline_seconds = codes "com.joyrex2001.kubedock.active-deadline-seconds"
