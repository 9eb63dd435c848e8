-- ===== src/Organization/Found.antt =====
-- What InfluxDB answers to the name of an organization.
use influxdb_operator.Base.{String, ◌≡◌, Option, none, some}
use mathlib.Core.Path.{subst}
use influxdb_operator.Effect.Keeps.{}
use influxdb_operator.Environment.{Environment, InfluxOrganization}
use influxdb_operator.Lifecycle.Reads.{}
use influxdb_operator.Journal.{}
use influxdb_operator.Journal.Trace.{}
use influxdb_operator.Organization.{}
use influxdb_operator.Organization.Writes.{IsAnswered}

-- What is known of an answer of `FindOrganizationByName`.
abbrev pub IsFound : Environment → String → Option InfluxOrganization → Type 0
IsFound E name none = Unit
IsFound E name (some org) = IsAnswered E name org

pub IsFound-some :
    (E : Environment) (name : String) (a : Option InfluxOrganization) (org : InfluxOrganization)
    → IsFound E name a
    → a ≡ some org
    → IsAnswered E name org
IsFound-some E name a org h e = subst (IsFound E name) e h
