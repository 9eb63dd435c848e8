-- ===== src/Token/Deletes.antt =====
-- A Token that is marked for deletion, under healthy servers, and repeated calls of `Reconcile`.
use influxdb_operator.Base.Dict.{Dict}
use influxdb_operator.Api.{Token}
use influxdb_operator.Environment.{Environment}
use influxdb_operator.Lifecycle.Keyed.{without_same, without_apart}
use influxdb_operator.Lifecycle.Keyed
