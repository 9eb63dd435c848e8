-- ===== src/Webhook/Const.antt =====
-- api/v1beta1/const.go
use influxdb_operator.Base.{String, List, [], ◌∷◌}

abbrev pub default_org_name : String
default_org_name = "influxdata"

abbrev pub default_config_name : String
default_config_name = "default"

abbrev pub default_secret_name : String
default_secret_name = "influxdb-token"

abbrev pub default_addr : String
default_addr = "http://influxdb2.influxdb2-system.svc.cluster.local"

abbrev pub permission_read : String
permission_read = "read"

abbrev pub permission_write : String
permission_write = "write"

abbrev pub resource_type_orgs : String
resource_type_orgs = "orgs"

-- The keys of `resourceTypes`, each a constant `ResourceType…` of the file.
abbrev pub resource_types : List String
resource_types =
    "authorizations" ∷ "buckets" ∷ "checks" ∷ "dashboards" ∷ "dbrp" ∷ "documents" ∷ "labels"
    ∷ "notebooks" ∷ "notificationEndpoints" ∷ "notificationRules" ∷ resource_type_orgs ∷ "scrapers"
    ∷ "secrets" ∷ "sources" ∷ "tasks" ∷ "telegrafs" ∷ "users" ∷ "variables" ∷ "views" ∷ []

-- The keys of `permissionTypes`.
abbrev pub permission_types : List String
permission_types = permission_read ∷ permission_write ∷ []
