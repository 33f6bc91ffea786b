-- ===== src/Alert/Fingerprint.antt =====
-- core/alert/fingerprinter.py: the key under which two firings are one incident.
use Prim.Native.String as Native
use nightswatch.Prelude.{
  ℕ, String, ◌≡◌, refl, ap, Bool, true, not, Option, none, some, List, [], ◌∷◌, contains,
  if◌then◌else◌,
}
use package.text.Mathlib.Text.{is_le}
use nightswatch.Json.{text, object, Fields, end, field}
use nightswatch.Database.{Labels}
use nightswatch.Repository.{filter}
use nightswatch.Pipeline.{labels_to_dict}

-- How an identifier is written, and the two library calls: `json.dumps` with its separators, and
-- `sha256` of the UTF-8 bytes as hexadecimal digits.
pub record Hashing : Type 0 where
  pub str : ℕ → String
  pub dumps : Fields → String
  pub sha256 : String → String

abbrev pub default_unstable_labels : List String
default_unstable_labels = "instance" ∷ "pod" ∷ "node" ∷ "container_id" ∷ "replica" ∷ "host" ∷ []

-- `{k: v for k, v in labels.items() if k not in unstable}`
abbrev is_stable : List String → String × String → Bool
is_stable unstable label = not (contains label.0 unstable)

abbrev pub stable : List String → Labels → Labels
stable unstable labels = filter (is_stable unstable) labels

-- `sorted(stable.items())`: the keys of a dictionary differ, so they alone decide.
unfoldable pub insert_label : String × String → Labels → Labels
insert_label label [] = label ∷ []
insert_label label (other ∷ labels) =
    let rest = insert_label label labels in
    if is_le (Native.compare label.0 other.0) then label ∷ other ∷ labels else other ∷ rest

unfoldable pub sort_labels : Labels → Labels
unfolding insert_label
sort_labels [] = []
sort_labels (label ∷ labels) = insert_label label (sort_labels labels)

abbrev text_or_empty : Option String → String
text_or_empty none = ""
text_or_empty (some s) = s

module _ (h : Hashing) where
  -- The keys are in the order that `sort_keys` gives them.
  unfoldable pub canonical :
      (tenant_id : ℕ) (alert_name : String) (labels : Labels) (severity : Option String) → Fields
  unfolding labels_to_dict
  canonical tenant_id alert_name labels severity = field "labels" (object (labels_to_dict labels)) (
      field "name" (text alert_name) (
        field "severity" (text (text_or_empty severity))
          (field "tenant" (text (h.str tenant_id)) end)))

  unfoldable pub fingerprint :
      (tenant_id : ℕ) (alert_name : String) (labels : Labels) (severity : Option String)
      (unstable_labels : List String)
      → String
  unfolding sort_labels canonical
  fingerprint tenant_id alert_name labels severity unstable_labels = h.sha256 (
      h.dumps
        (canonical tenant_id alert_name (sort_labels (stable unstable_labels labels)) severity))

-- The labels `after` come from `before` by adding, removing and changing unstable labels only.
pub data Churned (unstable : List String) : Labels → Labels → Type 0 where
  done : Churned unstable [] []
  kept :
      {label : String × String} {before after : Labels}
      → Churned unstable before after
      → Churned unstable (label ∷ before) (label ∷ after)
  dropped :
      {k v : String} {before after : Labels}
      → contains k unstable ≡ true
      → Churned unstable before after
      → Churned unstable ((k, v) ∷ before) after
  added :
      {k v : String} {before after : Labels}
      → contains k unstable ≡ true
      → Churned unstable before after
      → Churned unstable before ((k, v) ∷ after)

Churned-stable :
    {unstable : List String} {before after : Labels}
    → Churned unstable before after
    → stable unstable before ≡ stable unstable after
Churned-stable done = refl
Churned-stable {unstable} (kept {label} c) =
    ap (λ rest. if not (contains label.0 unstable) then label ∷ rest else rest) (Churned-stable c)
Churned-stable (dropped h c) = rw h (Churned-stable c)
Churned-stable (added h c) = rw h (Churned-stable c)

-- Unstable labels do not split an incident: whatever of them an alert carries, its fingerprint is
-- the same.
pub fingerprint-Churned :
    (h : Hashing) (tenant_id : ℕ) (alert_name : String) (severity : Option String)
    (unstable : List String) (before after : Labels)
    → Churned unstable before after
    → fingerprint h tenant_id alert_name before severity unstable
      ≡ fingerprint h tenant_id alert_name after severity unstable
unfolding fingerprint
fingerprint-Churned h tenant_id alert_name severity unstable before after c =
    ap
      (λ labels.
        h.sha256 (h.dumps (canonical h tenant_id alert_name (sort_labels labels) severity)))
      (Churned-stable c)
