-- ===== src/Tools/Accounting.antt =====
-- What a dispatched call does to the budget, to the audit rows and to the world.
use nightswatch.Prelude.{ℕ, String, ◌≡◌, refl, ◌⊎◌, inl, inr, Option, none, some, List, [], ◌∷◌}
use nightswatch.Json.{Fields}
use nightswatch.Action.{Reason, budget_exhausted, Result, return, raise, ◌>>=◌}
use nightswatch.Budget.{assert_can_call_tool, record_tool_call}
use nightswatch.Budget.Guards.{assert_can_call_tool-Guarded}
use nightswatch.Context.{Context, ToolCallRow, Outcome}
use nightswatch.Tools.{
  ToolSpec, ToolRegistry, append_row, finish, finish_handled, call_handler, checked, found,
  dispatch,
}

-- One more call is counted and one row is stored, under the stage that runs. Nothing else of the
-- context changes but the world.
pub record Counted {W : Type 0} (before after : Context W) : Type 0 where
  pub counted : after.budget ≡ record_tool_call before.budget
  pub row : ToolCallRow
  pub stored : after.store ≡ append_row row before.store
  pub staged : row.stage_id ≡ before.current_stage_id
  pub completed : after.completed_stages ≡ before.completed_stages
  pub report : after.report ≡ before.report

-- The call came back with a reply and was counted.
abbrev pub Replied : {W : Type 0} → Context W → Result Fields × Context W → Type 0
Replied before (r, after) = (reply : Fields) × (r ≡ return reply) × Counted before after

module _ {W : Type 0} (monotonic : W → ℕ) (describe : List String → String)
    (registry : ToolRegistry W) where
  finish-Replied :
      (name : String) (input : Fields) (started : ℕ) (output : Option Fields) (outcome : Outcome)
      (err : Option Fields) (ctx : Context W)
      → Replied ctx (finish monotonic describe registry name input started output outcome err ctx)
  unfolding finish
  finish-Replied name input started output outcome err ctx = (
    _,
    refl,
    record {
      counted = refl;
      row = _;
      stored = refl;
      staged = refl;
      completed = refl;
      report = refl;
    },
  )

  Replied-world :
      (ctx : Context W) (world : W) {out : Result Fields × Context W}
      → Replied (record ctx { world = world }) out
      → Replied ctx out
  Replied-world ctx world (reply, e, c) = (
    reply,
    e,
    record {
      counted = c.counted;
      row = c.row;
      stored = c.stored;
      staged = c.staged;
      completed = c.completed;
      report = c.report;
    },
  )

  finish_handled-Replied :
      (name : String) (input : Fields) (started : ℕ) (result : Result Fields) (ctx : Context W)
      → Replied ctx (finish_handled monotonic describe registry name input started result ctx)
  unfolding finish_handled
  finish_handled-Replied name input started (return output) ctx = finish-Replied _ _ _ _ _ _ ctx
  finish_handled-Replied name input started (raise e) ctx = finish-Replied _ _ _ _ _ _ ctx

  call_handler-Replied :
      (spec : ToolSpec W) (name : String) (input : Fields) (started : ℕ) (ctx : Context W)
      → Replied ctx (call_handler monotonic describe registry spec name input started ctx)
  unfolding call_handler
  call_handler-Replied spec name input started ctx =
      let (result, world') = spec.handler input ctx in
      Replied-world ctx world'
        (finish_handled-Replied name input started result (record ctx { world = world' }))

  checked-Replied :
      (spec : ToolSpec W) (name : String) (input : Fields) (started : ℕ) (missing : List String)
      (ctx : Context W)
      → Replied ctx (checked monotonic describe registry spec name input started missing ctx)
  unfolding checked
  checked-Replied spec name input started [] ctx = call_handler-Replied spec name input started ctx
  checked-Replied spec name input started (k ∷ ks) ctx = finish-Replied _ _ _ _ _ _ ctx

  found-Replied :
      (name : String) (input : Fields) (started : ℕ) (spec : Option (ToolSpec W)) (ctx : Context W)
      → Replied ctx (found monotonic describe registry name input started spec ctx)
  unfolding found
  found-Replied name input started none ctx = finish-Replied _ _ _ _ _ _ ctx
  found-Replied name input started (some spec) ctx = checked-Replied spec name input started _ ctx

  -- A call that the budget refuses changes nothing, and the refusal is the only exception of
  -- `dispatch`. Any other call, of an unknown tool, with missing keys or with a handler that raises
  -- too, replies, is counted once, and is stored as one row under the running stage.
  pub dispatch_cases :
      (name : String) (input : Fields) (ctx : Context W)
      → ((reason : Reason) × (assert_can_call_tool (monotonic ctx.world) ctx.budget
            ≡ raise (budget_exhausted reason))
          × (dispatch monotonic describe registry name input ctx
              ≡ (raise (budget_exhausted reason), ctx)))
        ⊎ ((assert_can_call_tool (monotonic ctx.world) ctx.budget ≡ return tt)
            × Replied ctx (dispatch monotonic describe registry name input ctx))
  unfolding dispatch ◌>>=◌
  dispatch_cases name input ctx =
      elim (assert_can_call_tool-Guarded (monotonic ctx.world) ctx.budget) [
        | inl free ↦ inr (free, rw free (found-Replied _ _ _ _ ctx))
        | inr (reason, spent) ↦ inl (reason, spent, rw spent)
      ]
