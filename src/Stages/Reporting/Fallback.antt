-- ===== src/Stages/Reporting/Fallback.antt =====
-- The report stage as the last line of defence: which exceptions it turns into a report, and what a
-- fallback claims.
use nightswatch.Prelude.{
  String, if◌then◌else◌, ◌≡◌, ◌≢◌, ◌⊎◌, inl, inr, refl, ap, Bool, true, false, not, ◌||◌, is_empty,
  Option, none, some, List, [], ◌∷◌,
}
use nightswatch.Json.{Fields}
use nightswatch.Action.{
  Exception, budget_exhausted, llm_transient_error, llm_response_invalid, alert_validation_error,
  other, Result, return, raise, lift,
}
use nightswatch.Context.{Confidence, low, Context, Report, ValidatedHypothesis}
use nightswatch.Database.{StageEnd}
use nightswatch.Pipeline.{StageResult}
use nightswatch.Gateway.{Environment, LlmResponse, chat}
use nightswatch.Gateway.Chat.{Spent, chat-Spent}
use nightswatch.Queries.{parts}
use nightswatch.Stages.{Prompts, PyValues}
use nightswatch.Stages.Reporting.{
  ReportOutput, confirmed_only, headline_of, fallback_report, fall_back, accept,
  accept_or_fall_back, or_empty, settle, request, ask, execute,
}

-- The exceptions of the `except` clause, among those that `chat` may raise.
abbrev pub IsCaught : Exception → Type 0
IsCaught (budget_exhausted _) = Unit
IsCaught llm_response_invalid = Unit
IsCaught _ = ⊥

-- The stage returned with a report of this investigation, or an exception that it does not catch
-- left it and the report is as it was.
abbrev pub ReportedOr : {W : Type 0} → Context W → Result StageResult → Context W → Type 0
ReportedOr before (return result) after =
    (result.status ≡ StageEnd.succeeded)
    × ((report : Report) × (after.report ≡ some report)
        × (report.investigation_id ≡ before.investigation_id))
ReportedOr before (raise e) after = (¬ IsCaught e) × (after.report ≡ before.report)

module _ {W : Type 0} (env : Environment W) (py : PyValues) (prompts : Prompts)
    (model_json_schema : Fields) (model_validate : Fields → Option ReportOutput) where
  abbrev Settled : Context W → Result StageResult × Context W → Type 0
  Settled before q = ReportedOr before q.0 q.1

  accept_or_fall_back-Settled :
      (before after : Context W) (out : Option ReportOutput)
      → after.investigation_id ≡ before.investigation_id
      → Settled before
          (accept_or_fall_back env py prompts model_json_schema model_validate out after)
  unfolding fall_back fallback_report accept
  accept_or_fall_back-Settled before after none same = (refl, (_, refl, same))
  accept_or_fall_back-Settled before after (some out) same = (refl, (_, refl, same))

  settle-Settled :
      (before after : Context W) (result : Result LlmResponse)
      → Spent before after
      → Settled before (settle env py prompts model_json_schema model_validate result after)
  unfolding settle fall_back fallback_report lift
  settle-Settled before after (return resp) s =
      accept_or_fall_back-Settled before after
        (model_validate (or_empty env py prompts model_json_schema model_validate resp.structured))
        s.identity
  settle-Settled before after (raise (budget_exhausted reason)) s = (refl, (_, refl, s.identity))
  settle-Settled before after (raise llm_response_invalid) s = (refl, (_, refl, s.identity))
  settle-Settled before after (raise llm_transient_error) s = (λ c. c, s.report)
  settle-Settled before after (raise alert_validation_error) s = (λ c. c, s.report)
  settle-Settled before after (raise (other name)) s = (λ c. c, s.report)

  -- With a gateway or without: a report stage that returns says `succeeded` and leaves a report of
  -- this investigation. It raises only what is neither an exhausted budget nor an invalid response,
  -- and the report is then as it was.
  pub execute-Reported :
      (configured : Bool) (ctx : Context W)
      → ReportedOr ctx
          (execute env py prompts model_json_schema model_validate configured ctx).0
          (execute env py prompts model_json_schema model_validate configured ctx).1
  unfolding execute ask fallback_report
  execute-Reported false ctx = (refl, (_, refl, refl))
  execute-Reported true ctx =
      let q = chat env (request env py prompts model_json_schema model_validate ctx) ctx in
      settle-Settled ctx q.1 q.0
        (chat-Spent env (request env py prompts model_json_schema model_validate ctx) ctx)

  -- `v` is the first answer that is confirmed.
  abbrev pub FirstConfirmed : ValidatedHypothesis → List ValidatedHypothesis → Type 0
  FirstConfirmed v [] = ⊥
  FirstConfirmed v (x ∷ xs) =
      ((x ≡ v) × (v.confirmed ≡ some true)) ⊎ ((x.confirmed ≢ some true) × FirstConfirmed v xs)

  abbrev pub NoneConfirmed : List ValidatedHypothesis → Type 0
  NoneConfirmed [] = Unit
  NoneConfirmed (x ∷ xs) = (x.confirmed ≢ some true) × NoneConfirmed xs

  abbrev Found : List ValidatedHypothesis → List ValidatedHypothesis → Type 0
  Found vs found =
      (NoneConfirmed vs × (found ≡ []))
      ⊎ ((v : ValidatedHypothesis) × (rest : List ValidatedHypothesis) × FirstConfirmed v vs
          × (found ≡ v ∷ rest))

  Found-skip :
      (x : ValidatedHypothesis) (vs found : List ValidatedHypothesis)
      → (x.confirmed ≢ some true)
      → Found vs found
      → Found (x ∷ vs) found
  Found-skip x vs found ne (inl (none_of, e)) = inl ((ne, none_of), e)
  Found-skip x vs found ne (inr (v, rest, first, e)) = inr (v, rest, inr (ne, first), e)

  Found-next :
      (x : ValidatedHypothesis) (vs found : List ValidatedHypothesis) (c : Option Bool)
      → x.confirmed ≡ c
      → Found vs found
      → Found (x ∷ vs) (elim c [ some b ↦ (if b then x ∷ found else found) | none ↦ found ])
  Found-next x vs found none e ih = Found-skip x vs found (λ k. cc) ih
  Found-next x vs found (some true) e ih = inr (x, found, inl (refl, e), refl)
  Found-next x vs found (some false) e ih = Found-skip x vs found (λ k. cc) ih

  Found-confirmed_only : (vs : List ValidatedHypothesis) → Found vs (confirmed_only vs)
  unfolding confirmed_only
  Found-confirmed_only [] = inl (tt, refl)
  Found-confirmed_only (x ∷ vs) =
      Found-next x vs (confirmed_only vs) x.confirmed refl (Found-confirmed_only vs)

  -- A headline names a likely cause only with an answer that is confirmed.
  abbrev pub Claims : List ValidatedHypothesis → String × Confidence → Type 0
  Claims vs (headline, confidence) =
      (NoneConfirmed vs × (confidence ≡ low))
      ⊎ ((v : ValidatedHypothesis) × FirstConfirmed v vs
          × (headline ≡ parts ("Likely cause: " ∷ v.statement ∷ []))
          × (confidence ≡ v.confidence))

  headline_of-Claims :
      (vs found : List ValidatedHypothesis) (any : Bool)
      → Found vs found
      → Claims vs (headline_of env py prompts model_json_schema model_validate found any)
  unfolding headline_of
  headline_of-Claims vs [] true (inl (none_of, e)) = inl (none_of, refl)
  headline_of-Claims vs [] false (inl (none_of, e)) = inl (none_of, refl)
  headline_of-Claims vs [] any (inr (v, rest, first, e)) = absurd (cc)
  headline_of-Claims vs (x ∷ xs) any (inl (none_of, e)) = absurd (cc)
  headline_of-Claims vs (x ∷ xs) any (inr (v, rest, first, e)) =
      let same : x ≡ v = cc in
      inr (
        v,
        first,
        ap (λ (w : ValidatedHypothesis). parts ("Likely cause: " ∷ w.statement ∷ [])) same,
        ap (λ (w : ValidatedHypothesis). w.confidence) same,
      )

  -- A fallback report takes its headline and its confidence from the first answer that is confirmed;
  -- where none is, the confidence is `low`.
  pub fallback_report-Claims :
      (ctx : Context W) (schema_version : String)
      → Claims ctx.validated (
        (fallback_report env py prompts model_json_schema model_validate ctx
            schema_version).headline,
        (fallback_report env py prompts model_json_schema model_validate ctx
            schema_version).confidence,
      )
  unfolding fallback_report
  fallback_report-Claims ctx schema_version =
      headline_of-Claims ctx.validated (confirmed_only ctx.validated)
        (not (is_empty ctx.validated) || not (is_empty ctx.hypotheses))
        (Found-confirmed_only ctx.validated)
