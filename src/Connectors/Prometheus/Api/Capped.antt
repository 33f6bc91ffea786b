-- ===== src/Connectors/Prometheus/Api/Capped.antt =====
-- The limit on the series of one query.
use Prim.Native.Char.{Char}
use nightswatch.Prelude.{
  ℕ, zero, suc, ◌≤◌, String, ◌≡◌, refl, sym, ap, Bool, true, false, Bool-cases, ◌⊎◌, inl, inr,
  Option, none, some, List, [], ◌∷◌, length, take, length-take, ltb, ◌==◌, if◌then◌else◌, arith,
}
use mathlib.Core.Path.{subst}
use nightswatch.Json
use nightswatch.Json.{Json, bool, text, array, Fields, end, field}
use nightswatch.Action.{Result, return, raise}
use nightswatch.Queries.Promql.{build}
use nightswatch.Connectors.{PrometheusConfig}
use nightswatch.Connectors.Requests.{
  Reply, timed_out, transport_failed, responded, Client, ConnectorResult, ConnectorQuery,
  promql_query, nrql_query, other_query, to_items, cap,
}
use nightswatch.Connectors.Prometheus.Api.{
  is_text, sum_points, data_of, rows_of, with_points, with_rows, with_data, capped_result, of_body,
  of_reply, execute, run, query, path_of, seconds, bounds_of,
}

-- The rows that a successful result has, which are as many as it counts and no more than the limit; where
-- it says that it is truncated, they reach the limit.
pub record Capped (max_series : ℕ) (r : ConnectorResult) : Type 0 where
  pub rows : List Json
  pub result : Json.get "result" r.payload ≡ some (array (to_items rows))
  pub counted : r.series_count ≡ length rows
  pub limited : length rows ≤ max_series
  pub truncated :
      (Json.get "truncated" r.payload ≡ some (bool false))
      ⊎ ((Json.get "truncated" r.payload ≡ some (bool true)) × (length rows ≡ max_series))

length-taken : (n : ℕ) (xs : List Json) → ltb n (length xs) ≡ true → length (take n xs) ≡ n
length-taken zero xs h = refl
length-taken (suc n) [] h = ground arith
length-taken (suc n) (x ∷ xs) h = ap suc (length-taken n xs (ground arith))

module _ (client : Client) (config : PrometheusConfig) where
  capped_result-Capped :
      (promql : String) (payload : Fields) (rows : List Json) (point_count : ℕ)
      → Capped config.max_series (capped_result client config promql payload rows point_count)
  unfolding capped_result cap Json.get
  capped_result-Capped promql payload rows point_count =
      elim (Bool-cases (ltb config.max_series (length rows))) [
        | inl e ↦ record {
          rows = take config.max_series rows;
          result = rw e refl;
          counted = rw e (sym (length-taken config.max_series rows e));
          limited = length-take config.max_series rows;
          truncated = inr (rw e refl, length-taken config.max_series rows e);
        }
        | inr e ↦ record {
          rows = rows;
          result = rw e refl;
          counted = rw e refl;
          limited = ground arith;
          truncated = inl (rw e refl);
        }
      ]

  -- The result failed, or it is capped.
  abbrev pub FailedOr : ConnectorResult → Type 0
  FailedOr r = (r.success ≡ false) ⊎ Capped config.max_series r

  -- What a request that returns has returned.
  abbrev Returned : Result ConnectorResult → Type 0
  Returned (return r) = FailedOr r
  Returned (raise e) = Unit

  Returned-if :
      (b : Bool) (x y : Result ConnectorResult)
      → Returned x
      → Returned y
      → Returned (if b then x else y)
  Returned-if true x y hx hy = hx
  Returned-if false x y hx hy = hy

  Returned-with_points :
      (promql : String) (payload : Fields) (rows : List Json) (count : Result ℕ)
      → Returned (with_points client config promql payload rows count)
  Returned-with_points promql payload rows (raise e) = tt
  Returned-with_points promql payload rows (return n) =
      inr (capped_result-Capped promql payload rows n)

  Returned-with_rows :
      (promql : String) (payload : Fields) (rows : Result (List Json))
      → Returned (with_rows client config promql payload rows)
  Returned-with_rows promql payload (raise e) = tt
  Returned-with_rows promql payload (return rows) =
      Returned-with_points promql payload rows (sum_points rows)

  Returned-with_data :
      (promql : String) (payload : Result Fields)
      → Returned (with_data client config promql payload)
  Returned-with_data promql (raise e) = tt
  Returned-with_data promql (return payload) =
      Returned-with_rows promql payload (rows_of (Json.get "result" payload))

  Returned-of_body :
      (promql : String) (body : Result Fields) → Returned (of_body client config promql body)
  Returned-of_body promql (raise e) = tt
  Returned-of_body promql (return body) =
      Returned-if (is_text "success" (Json.get "status" body)) _ _
        (Returned-with_data promql (data_of (Json.get "data" body))) (inl refl)

  Returned-of_reply :
      (promql : String) (reply : Reply) → Returned (of_reply client config promql reply)
  Returned-of_reply promql (timed_out message) = tt
  Returned-of_reply promql (transport_failed message) = inl refl
  Returned-of_reply promql (responded status_code body) =
      Returned-if (status_code == 200) _ _ (Returned-of_body promql (client.json body)) (inl refl)

  module _ (is_space is_word : Char → Bool) where
    Returned-run :
        (promql : Result String) (start finish : Option ℕ) (step : ℕ)
        → Returned (run client config is_space is_word promql start finish step)
    unfolding execute
    Returned-run (raise e) start finish step = tt
    Returned-run (return promql) start finish step = Returned-of_reply promql (
        client.send (path_of client config start finish) (
          field "query" (text promql) (
            field "timeout" (text (seconds client config config.query_timeout_seconds))
              (bounds_of client config start finish step))))

    Returned-query : (q : ConnectorQuery) → Returned (query client config is_space is_word q)
    unfolding query
    Returned-query (promql_query none start finish step) = tt
    Returned-query (promql_query (some intent) start finish step) =
        Returned-run (build is_space is_word client.text intent) start finish step
    Returned-query (nrql_query intent start finish) = tt
    Returned-query (other_query kind) = tt

    -- A query of Prometheus that returns a success, whatever the backend answered, has no more series
    -- than the limit of the configuration and counts them rightly; if it says that it is truncated, it
    -- has as many as the limit.
    pub query-FailedOr :
        (q : ConnectorQuery) (r : ConnectorResult)
        → query client config is_space is_word q ≡ return r
        → FailedOr r
    query-FailedOr q r h = subst Returned h (Returned-query q)
