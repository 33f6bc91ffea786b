-- ===== src/Integrations/Shown.antt =====
-- What the public view of a configuration depends on.
use nightswatch.Prelude.{
  String, ◌≡◌, refl, ap, ◌∙◌, Bool, true, false, ◌||◌, List, [], ◌∷◌, contains, str_eq, eq_iff,
  if◌then◌else◌, arith,
}
use nightswatch.Json
use nightswatch.Json.{Json, text, object, Fields, end, field, get-set}
use nightswatch.Integrations.{Codec, select, add_if_there, prometheus_view, view_if, public_view}

abbrev pub keys_if : (prometheus newrelic slack : Bool) → List String
keys_if prometheus newrelic slack =
    if prometheus
    then "url" ∷ "auth" ∷ []
    else if newrelic
    then "account_id" ∷ "region" ∷ []
    else if slack
    then "team_id" ∷ "team_name" ∷ "channel_id" ∷ "channel_name" ∷ []
    else []

-- The keys of a configuration that its kind may show.
abbrev pub shown_keys : (kind : String) → List String
shown_keys kind = keys_if (str_eq kind "prometheus") (str_eq kind "newrelic") (str_eq kind "slack")

or_false : (a b : Bool) → a || b ≡ false → (a ≡ false) × (b ≡ false)
or_false true b h = absurd (cc)
or_false false b h = (refl, h)

-- A key that differs from `k` in the order in which `contains` compares them.
get-set_ne :
    (k j : String) (v : Json) (d : Fields)
    → str_eq j k ≡ false
    → Json.get j (Json.set k v d) ≡ Json.get j d
get-set_ne k j v d h = get-set k j v d ∙ ground (arith, eq_iff k j, eq_iff j k)

select-set :
    (ks : List String) (k : String) (v : Json) (config : Fields)
    → contains k ks ≡ false
    → select ks (Json.set k v config) ≡ select ks config
unfolding select
select-set [] k v config h = refl
select-set (j ∷ ks) k v config h =
    let (ne, rest) = or_false (str_eq j k) (contains k ks) h in
    ap (λ value. add_if_there j value (select ks (Json.set k v config)))
      (get-set_ne k j v config ne)
    ∙ ap (add_if_there j (Json.get j config)) (select-set ks k v config rest)

module _ (codec : Codec) where
  prometheus-set :
      (k : String) (v : Json) (config : Fields)
      → contains k ("url" ∷ "auth" ∷ []) ≡ false
      → prometheus_view codec (Json.set k v config) ≡ prometheus_view codec config
  prometheus-set k v config h =
      let (url, rest) = or_false (str_eq "url" k) (contains k ("auth" ∷ [])) h in
      let (auth, last) = or_false (str_eq "auth" k) (contains k []) rest in
      rw (get-set_ne k "url" v config url, get-set_ne k "auth" v config auth)

  by_kind :
      (prometheus newrelic slack : Bool) (k : String) (v : Json) (config : Fields)
      → contains k (keys_if prometheus newrelic slack) ≡ false
      → view_if codec prometheus newrelic slack (Json.set k v config)
        ≡ view_if codec prometheus newrelic slack config
  by_kind true newrelic slack k v config h = prometheus-set k v config h
  by_kind false true slack k v config h = select-set _ k v config h
  by_kind false false true k v config h = select-set _ k v config h
  by_kind false false false k v config h = refl

  -- Whatever a configuration holds under a key that its kind does not show, such as `api_key` or
  -- `bot_token`, the public view is the same.
  pub public_view-set :
      (kind k : String) (v : Json) (config : Fields)
      → contains k (shown_keys kind) ≡ false
      → public_view codec kind (Json.set k v config) ≡ public_view codec kind config
  unfolding public_view
  public_view-set kind =
      by_kind (str_eq kind "prometheus") (str_eq kind "newrelic") (str_eq kind "slack")

  -- Of the credentials of a Prometheus, the view shows the type alone: whatever else they hold, it is
  -- the same.
  pub public_view-set_auth :
      (k : String) (v : Json) (auth config : Fields)
      → str_eq "type" k ≡ false
      → public_view codec "prometheus" (Json.set "auth" (object (Json.set k v auth)) config)
        ≡ public_view codec "prometheus" (Json.set "auth" (object auth) config)
  unfolding public_view
  public_view-set_auth k v auth config h = rw (
    get-set "auth" "url" (object (Json.set k v auth)) config,
    get-set "auth" "auth" (object (Json.set k v auth)) config,
    get-set "auth" "url" (object auth) config,
    get-set "auth" "auth" (object auth) config,
    get-set_ne k "type" v auth h,
  )
