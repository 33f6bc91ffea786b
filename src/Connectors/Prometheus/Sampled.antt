-- ===== src/Connectors/Prometheus/Sampled.antt =====
-- How much of the values of a label the catalog keeps.
use nightswatch.Prelude.{
  ℕ, suc, ◌≤◌, String, ◌≡◌, refl, ap, ◌∙◌, Bool, true, false, Option, none, some, List, [], ◌∷◌,
  length, length-append, lookup, str_eq, if◌then◌else◌, arith,
}
use mathlib.Core.Path.{subst}
use nightswatch.Action.{Result, return, raise}
use nightswatch.Database.{Labels}
use nightswatch.Queries.Promql.{labels_selector}
use nightswatch.Connectors.Prometheus.{
  Meta, MetricEntry, Sweeps, Grouped, Sweep, alter, add_sample, group_labels, group_named,
  group_series, insert_text, sort_texts, insert_key, sort_keys, sort_values, entry_of, entries_of,
  of_series, discover_metrics,
}

-- What holds of each value of a dictionary.
abbrev pub All {ℓ} : {V : Type ℓ} → (V → Type 0) → List (String × V) → Type 0
All P [] = Unit
All P ((k, v) ∷ d) = P v × All P d

All-if :
    {V : Type 0} (P : V → Type 0) (b : Bool) (x y : List (String × V))
    → All P x
    → All P y
    → All P (if b then x else y)
All-if P true x y hx hy = hx
All-if P false x y hx hy = hy

All-alter :
    {V : Type 0} (P : V → Type 0) (default : V) (k : String) (f : V → V) (d : List (String × V))
    → P (f default)
    → ((v : V) → P v → P (f v))
    → All P d
    → All P (alter default k f d)
unfolding alter
All-alter P default k f [] start step all = (start, tt)
All-alter P default k f ((j, v) ∷ d) start step (h, all) =
    All-if P (str_eq j k) _ _ (step v h, all) (h, All-alter P default k f d start step all)

All-insert_key :
    {V : Type 0} (P : V → Type 0) (k : String) (v : V) (d : List (String × V))
    → P v
    → All P d
    → All P (insert_key (k, v) d)
unfolding insert_key
All-insert_key P k v [] h all = (h, tt)
All-insert_key P k v ((j, w) ∷ d) h (g, all) =
    All-if P _ ((k, v) ∷ ((j, w) ∷ d)) ((j, w) ∷ insert_key (k, v) d) (h, (g, all))
      (g, All-insert_key P k v d h all)

All-sort_keys :
    {V : Type 0} (P : V → Type 0) (d : List (String × V)) → All P d → All P (sort_keys d)
unfolding sort_keys
All-sort_keys P [] all = tt
All-sort_keys P ((k, v) ∷ d) (h, all) = All-insert_key P k v (sort_keys d) h (All-sort_keys P d all)

-- At most twenty values.
abbrev pub Few : List String → Type 0
Few values = length values ≤ 20

Few-add_sample :
    (value : String) (values : List String) → Few values → Few (add_sample value values)
unfolding add_sample
Few-add_sample value values few = ground (arith, length-append values (value ∷ []))

Few-group_labels :
    (name : String) (labelset : Labels) (grouped : Grouped)
    → All (All Few) grouped
    → All (All Few) (group_labels name labelset grouped)
unfolding group_labels
Few-group_labels name [] grouped all = all
Few-group_labels name ((key, value) ∷ labelset) grouped all = Few-group_labels name labelset _ (
    All-if (All Few) (str_eq key "__name__") _ _ all (
      All-alter (All Few) [] name (alter [] key (add_sample value)) grouped
        (All-alter Few [] key (add_sample value) [] (Few-add_sample value [] (omega arith))
          (Few-add_sample value) tt)
        (λ labels.
          All-alter Few [] key (add_sample value) labels (Few-add_sample value [] (omega arith))
            (Few-add_sample value))
        all))

Few-group_named :
    (name : Option String) (labelset : Labels) (sweep : Sweep)
    → All (All Few) sweep.0
    → All (All Few) (group_named name labelset sweep).0
Few-group_named none labelset sweep all = all
Few-group_named (some name) labelset (grouped, counts) all =
    chosen (str_eq name "") (group_labels name labelset grouped) (alter 0 name suc counts)
      (Few-group_labels name labelset grouped all)
  where
    chosen :
        (b : Bool) (g : Grouped) (c : List (String × ℕ))
        → All (All Few) g
        → All (All Few) (if◌then◌else◌ {A = Sweep} b (grouped, counts) (g, c)).0
    chosen true g c h = all
    chosen false g c h = h

Few-group_series :
    (series : List Labels) (sweep : Sweep)
    → All (All Few) sweep.0
    → All (All Few) (group_series series sweep).0
unfolding group_series
Few-group_series [] sweep all = all
Few-group_series (labelset ∷ series) sweep all =
    Few-group_series series _ (Few-group_named (lookup "__name__" labelset) labelset sweep all)

length-insert_text : (s : String) (ts : List String) → length (insert_text s ts) ≡ suc (length ts)
unfolding insert_text
length-insert_text s [] = refl
length-insert_text s (t ∷ ts) = ground (arith, length-insert_text s ts)

length-sort_texts : (ss : List String) → length (sort_texts ss) ≡ length ss
unfolding sort_texts
length-sort_texts [] = refl
length-sort_texts (s ∷ ss) = length-insert_text s (sort_texts ss) ∙ ap suc (length-sort_texts ss)

Few-sort_values :
    (labels : List (String × List String)) → All Few labels → All Few (sort_values labels)
unfolding sort_values
Few-sort_values [] all = tt
Few-sort_values ((key, vals) ∷ labels) (few, all) =
    (omega (arith, length-sort_texts vals), Few-sort_values labels all)

-- Of every label of every metric.
abbrev pub AllSampled : List MetricEntry → Type 0
AllSampled [] = Unit
AllSampled (entry ∷ entries) = All Few entry.labels × AllSampled entries

AllSampled-entries_of :
    (metadata : List (String × List Meta)) (counts : List (String × ℕ)) (grouped : Grouped)
    → All (All Few) grouped
    → AllSampled (entries_of metadata counts grouped)
unfolding entries_of entry_of
AllSampled-entries_of metadata counts [] all = tt
AllSampled-entries_of metadata counts ((name, labels) ∷ grouped) (few, all) =
    (Few-sort_values labels few, AllSampled-entries_of metadata counts grouped all)

module _ (sweeps : Sweeps) where
  of_series-AllSampled :
      (swept : Result (List Labels)) (entries : List MetricEntry)
      → of_series sweeps swept ≡ return entries
      → AllSampled entries
  of_series-AllSampled (raise e) entries h = absurd (cc)
  of_series-AllSampled (return series) entries h =
      let (grouped, counts) = group_series series ([], []) in
      let same : entries_of sweeps.metadata counts (sort_keys grouped) ≡ entries = cc in
      subst AllSampled same (
        AllSampled-entries_of sweeps.metadata counts (sort_keys grouped)
          (All-sort_keys (All Few) grouped (Few-group_series series ([], []) tt)))

  -- Whatever series the backend has, and however many: the catalog keeps at most twenty values of each
  -- label of each metric.
  pub discover_metrics-AllSampled :
      (selector : Labels) (entries : List MetricEntry)
      → discover_metrics sweeps selector ≡ return entries
      → AllSampled entries
  unfolding discover_metrics
  discover_metrics-AllSampled [] entries h =
      let same : [] ≡ entries = cc in subst AllSampled same tt
  discover_metrics-AllSampled (label ∷ selector) entries h =
      of_series-AllSampled (sweeps.get_series (labels_selector (label ∷ selector))) entries h
