-- ===== src/Organization/Guard.antt =====
-- The organization of InfluxDB's own, which the webhook keeps out: the webhook and the controller
-- together.
use influxdb_operator.Base.{String, ◌≡◌, ◌≢◌, ◌∙◌, ◌⊎◌, inl, inr, none, some, sym, arith, eq_iff}
use mathlib.Core.List.{Memᴰ}
use influxdb_operator.Effect.{Sys, reply}
use influxdb_operator.Api.{NamespacedName, Organization}
use influxdb_operator.Environment.{Environment, InfluxOrganization}
use influxdb_operator.Journal.{Write, create_organization, delete_organization, journal, recorded}
use influxdb_operator.Journal.Trace.{IsTrace-mem}
use influxdb_operator.Webhook.{validate_create_organization, default_organization}
use influxdb_operator.Webhook.Const.{default_org_name}
use influxdb_operator.Organization.{reconcile}
use influxdb_operator.Organization.Writes.{IsStep, IsGone, IsLast, IsAnswered}
use influxdb_operator.Organization.Authority.{organization-IsTrace}

-- An Organization as the API server can hold it: admitted at its creation, then changed in any way, since
-- the webhook admits every update; no change is of the name.
pub data Admitted : Organization → Type 0 where
  created :
      (r : Organization) → validate_create_organization r ≡ none → Admitted (default_organization r)
  changed : {o : Organization} (r : Organization) → Admitted o → r.name ≡ o.name → Admitted r

Admitted-name : {o : Organization} → Admitted o → o.name ≢ default_org_name
unfolding validate_create_organization default_organization
Admitted-name (created r h) e = ground (arith, eq_iff r.name default_org_name)
Admitted-name (changed r a same) e = Admitted-name a (sym same ∙ e)

-- What a write may do to organizations of InfluxDB.
abbrev pub Spares : Environment → String → Write → Type 0
Spares E name (create_organization n) = n ≢ name
Spares E name (delete_organization id) =
    (n : String) × (org : InfluxOrganization) × (n ≢ name) × IsAnswered E n org × (org.id ≡ some id)
Spares E name _ = Unit

-- In any world, whatever the calls answer: if the Organization that `Reconcile` reads is one that the
-- webhooks admitted, then the call asks InfluxDB neither to create an organization with the name
-- `influxdata` nor to delete one but by the id that it answered for another name.
pub reconcile-Spares :
    (E : Environment) (req : NamespacedName) (s : Sys E.World) (o : Organization) (x : Write)
    → (E.organizations.get req s.world).0 ≡ reply o
    → Admitted o
    → Memᴰ x (reconcile (journal E) req (recorded s)).1.world.writes
    → Spares E default_org_name x
reconcile-Spares E req s o x read admitted asked = spares x (
    IsTrace-mem (IsStep E o) (IsLast E (IsGone E req o (E.organizations.get req s.world).1) o) asked
      (organization-IsTrace E req s o read))
  where
    spares :
        (y : Write)
        → IsStep E o y ⊎ IsLast E (IsGone E req o (E.organizations.get req s.world).1) o y
        → Spares E default_org_name y
    spares (create_organization n) (inl (_, same)) = λ e. Admitted-name admitted (sym same ∙ e)
    spares (delete_organization id) (inl (_, _, (org, answered, e))) =
        (o.name, org, Admitted-name admitted, answered, e)
    spares (create_organization n) (inr h) = absurd h
    spares (delete_organization id) (inr h) = absurd h
    spares _ h = tt
