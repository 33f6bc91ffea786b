-- ===== src/Webhooks/NewRelic.antt =====
-- schemas/alert.py: the body of the New Relic webhook, and its form as an Alertmanager alert.
use nightswatch.Prelude.{
  ℕ, String, ◌≡◌, refl, ◌∙◌, Bool, true, false, Option, none, some, List, [], ◌∷◌, contains, lookup,
  assign, lookup-assign, str_eq, if◌then◌else◌,
}
use nightswatch.Database.{Labels}
use nightswatch.Queries.{join}
use nightswatch.Alert.{AlertmanagerAlert}

pub record NewRelicWebhookPayload : Type 0 where
  pub issue_id : String
  pub title : String
  pub state : String
  pub priority : Option String
  pub condition_name : String
  pub policy_name : Option String
  pub entity_names : List String
  pub nrql : Option String
  pub route_group : Option String
  pub runbook_url : Option String
  pub labels : Labels
  pub started_at : Option ℕ

-- `str.upper` and `str.lower`.
pub record PyCase : Type 0 where
  pub upper : String → String
  pub lower : String → String

-- `_NR_PRIORITY_TO_SEVERITY`
abbrev pub priority_to_severity : Labels
priority_to_severity =
    ("CRITICAL", "critical") ∷ ("HIGH", "high") ∷ ("MEDIUM", "medium") ∷ ("LOW", "low") ∷ []

-- `_NR_OPEN_STATES`
abbrev pub open_states : List String
open_states = "ACTIVATED" ∷ "CREATED" ∷ "OPEN" ∷ []

-- `if value: d[k] = value`
abbrev pub assign_if_set : String → Option String → Labels → Labels
assign_if_set k none d = d
assign_if_set k (some v) d = if str_eq v "" then d else assign k v d

abbrev pub assign_first : List String → Labels → Labels
assign_first [] d = d
assign_first (entity ∷ entities) d = assign "entity" entity d

abbrev pub assign_others : List String → Labels → Labels
assign_others (entity ∷ (other ∷ others)) d = assign "other_entities" (join ", " (other ∷ others)) d
assign_others _ d = d

abbrev or_now : ℕ → Option ℕ → ℕ
or_now now none = now
or_now now (some t) = t

abbrev mapped : Option String → String → String
mapped none lowered = lowered
mapped (some severity) lowered = severity

module _ (py : PyCase) where
  abbrev pub is_open : NewRelicWebhookPayload → Bool
  is_open payload = contains (py.upper payload.state) open_states

  abbrev pub severity_of : Option String → Option String
  severity_of none = none
  severity_of (some priority) =
      if str_eq priority ""
      then none
      else some (mapped (lookup (py.upper priority) priority_to_severity) (py.lower priority))

  unfoldable pub labels_of : NewRelicWebhookPayload → Labels
  unfolding assign
  labels_of payload = assign_first payload.entity_names (
      assign_if_set "route_group" payload.route_group (
        assign_if_set "policy" payload.policy_name (
          assign_if_set "severity" (severity_of payload.priority)
            (assign "alertname" payload.condition_name payload.labels))))

  unfoldable pub annotations_of : NewRelicWebhookPayload → Labels
  unfolding assign
  annotations_of payload = assign_others payload.entity_names (
      assign_if_set "runbook_url" payload.runbook_url (
        assign_if_set "nrql" payload.nrql
          (assign_if_set "summary" (some payload.title) (("issue_id", payload.issue_id) ∷ []))))

  -- The one alert of the payload that it makes.
  unfoldable pub to_alertmanager : (now : ℕ) → NewRelicWebhookPayload → AlertmanagerAlert
  unfolding labels_of annotations_of
  to_alertmanager now payload = record {
    status = "firing";
    labels = labels_of payload;
    annotations = annotations_of payload;
    starts_at = or_now now payload.started_at;
    ends_at = none;
  }

  -- A key that is not assigned keeps its value.
  kept_if :
      (b : Bool) (k j v : String) (d : Labels)
      → str_eq k j ≡ false
      → lookup j (if b then d else assign k v d) ≡ lookup j d
  kept_if true k j v d h = refl
  kept_if false k j v d h = rw (lookup-assign k j v d, h)

  kept_unless_set :
      (k j : String) (v : Option String) (d : Labels)
      → str_eq k j ≡ false
      → lookup j (assign_if_set k v d) ≡ lookup j d
  kept_unless_set k j none d h = refl
  kept_unless_set k j (some v) d h = kept_if (str_eq v "") k j v d h

  kept_first :
      (entities : List String) (d : Labels)
      → lookup "alertname" (assign_first entities d) ≡ lookup "alertname" d
  kept_first [] d = refl
  kept_first (entity ∷ entities) d = lookup-assign "entity" "alertname" entity d

  -- Whatever the template brings, the alert is called after its condition.
  pub alertname-labels_of :
      (payload : NewRelicWebhookPayload)
      → lookup "alertname" (labels_of payload) ≡ some payload.condition_name
  unfolding labels_of
  alertname-labels_of payload =
      kept_first payload.entity_names _
      ∙ kept_unless_set "route_group" "alertname" payload.route_group _ refl
      ∙ kept_unless_set "policy" "alertname" payload.policy_name _ refl
      ∙ kept_unless_set "severity" "alertname" (severity_of payload.priority) _ refl
      ∙ lookup-assign "alertname" "alertname" payload.condition_name payload.labels
