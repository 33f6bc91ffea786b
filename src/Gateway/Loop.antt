-- ===== src/Gateway/Loop.antt =====
-- `tool_loop`: its books on tool calls, and the exceptions that leave it.
use nightswatch.Prelude.{
  ◌⊎◌, ℕ, zero, suc, ◌+◌, ◌≤◌, ◌<◌, String, ◌≡◌, refl, ap, ◌∙◌, true, false, inl, inr, Option, none,
  some, List, [], ◌∷◌, ◌++◌, length, length-append, arith,
}
use mathlib.Core.Path.{subst}
use mathlib.Core.List.{append_assoc, append-nil}
use nightswatch.Action.{
  Exception, budget_exhausted, Result, return, raise, ◌>>=◌, is_budget_exhausted,
}
use nightswatch.Action.Preserves.{
  Preserves, Preserves-bind, Preserves-pure, Preserves-gets, Preserves-modify,
}
use nightswatch.Budget.{Budget, record_tool_call}
use nightswatch.Budget.Guards.{assert_can_call_tool_iff}
use nightswatch.Context.{Context, ToolCallRow}
use nightswatch.Tools.{append_row}
use nightswatch.Tools.Accounting.{Counted, dispatch_cases}
use nightswatch.Gateway.{
  Environment, Request, LlmResponse, Dispatched, ToolCall, Frame, chat, on_ctx, run_call, run_calls,
  use_tools, round, rounds, finish_loop, tool_loop,
}
use nightswatch.Gateway.Chat.{Spent, Spent-refl, chat-Preserves}

abbrev pub append_rows : List ToolCallRow → Option (List ToolCallRow) → Option (List ToolCallRow)
append_rows more none = none
append_rows more (some rows) = some (rows ++ more)

-- Since `start`, every tool call that the budget counted is one of `dispatched`, and is one row at
-- the end of the store; unless none was counted, the number of calls is within the limit.
pub record Balanced {W : Type 0} (start : Context W) (dispatched : List Dispatched)
    (ctx : Context W) : Type 0 where
  pub calls : ctx.budget.tool_calls_used ≡ start.budget.tool_calls_used + length dispatched
  pub more : List ToolCallRow
  pub stored : ctx.store ≡ append_rows more start.store
  pub one_each : length more ≡ length dispatched
  pub limit : ctx.budget.max_tool_calls ≡ start.budget.max_tool_calls
  pub within :
      (ctx.budget.tool_calls_used ≡ start.budget.tool_calls_used)
      ⊎ (ctx.budget.tool_calls_used ≤ start.budget.max_tool_calls)

append_rows-nil : (store : Option (List ToolCallRow)) → store ≡ append_rows [] store
append_rows-nil none = refl
append_rows-nil (some rows) = rw append-nil

append_row-append_rows :
    (row : ToolCallRow) (more : List ToolCallRow) (store : Option (List ToolCallRow))
    → append_row row (append_rows more store) ≡ append_rows (more ++ row ∷ []) store
append_row-append_rows row more none = refl
append_row-append_rows row more (some rows) = rw append_assoc

pub Balanced-refl : {W : Type 0} (ctx : Context W) → Balanced ctx [] ctx
Balanced-refl ctx = record {
  calls = omega arith;
  more = [];
  stored = append_rows-nil ctx.store;
  one_each = refl;
  limit = refl;
  within = inl refl;
}

module _ {W : Type 0} (start : Context W) where
  Balanced-Spent :
      {dispatched : List Dispatched} {before after : Context W}
      → Balanced start dispatched before
      → Spent before after
      → Balanced start dispatched after
  Balanced-Spent b s = record {
    calls = omega (arith, b.calls, s.tool_calls);
    more = b.more;
    stored = cc (s.store, b.stored);
    one_each = b.one_each;
    limit = cc (s.max_tool_calls, b.limit);
    within = elim b.within [
      | inl same ↦ inl (s.tool_calls ∙ same)
      | inr below ↦ inr (omega (arith, below, s.tool_calls))
    ];
  }

  Balanced-Counted :
      {dispatched : List Dispatched} {before after : Context W} (d : Dispatched)
      → Balanced start dispatched before
      → before.budget.tool_calls_used < before.budget.max_tool_calls
      → Counted before after
      → Balanced start (dispatched ++ d ∷ []) after
  unfolding record_tool_call
  Balanced-Counted {dispatched} {before} {after} d b room c =
      let used : after.budget.tool_calls_used ≡ before.budget.tool_calls_used + 1 =
        ap (λ (x : Budget). x.tool_calls_used) c.counted in
      let limit : after.budget.max_tool_calls ≡ before.budget.max_tool_calls =
        ap (λ (x : Budget). x.max_tool_calls) c.counted in
      let longer : length (dispatched ++ d ∷ []) ≡ length dispatched + 1 =
        length-append dispatched (d ∷ []) in
      record {
        calls = omega (arith, used, b.calls, longer);
        more = b.more ++ c.row ∷ [];
        stored =
            c.stored
            ∙ ap (append_row c.row) b.stored
            ∙ append_row-append_rows c.row b.more start.store;
        one_each = omega (arith, length-append b.more (c.row ∷ []), b.one_each, longer);
        limit = limit ∙ b.limit;
        within = inr (omega (arith, used, room, b.limit));
      }

abbrev reported : Result LlmResponse → List Dispatched
reported (return resp) = resp.dispatched_tool_calls
reported (raise _) = []

module _ {W : Type 0} (env : Environment W) (start : Context W) where
  abbrev Books : Frame W → Type 0
  Books frame = Balanced start frame.dispatched frame.ctx

  on_ctx-chat-Preserves : (request : Request) → Preserves Books (on_ctx env (chat env request))
  on_ctx-chat-Preserves request = record {
    after = λ frame h.
        Balanced-Spent start h
          ((chat-Preserves env frame.ctx request).after frame.ctx (Spent-refl frame.ctx));
  }

  run_call-Preserves : (call : ToolCall) → Preserves Books (run_call env call)
  unfolding run_call ◌>>=◌
  run_call-Preserves call = record {
    after = λ frame h.
        elim (dispatch_cases env.monotonic env.describe env.registry call.name call.input
          frame.ctx) [
            | inl (reason, spent, e) ↦ rw e h
            | inr (free, (reply, e, c)) ↦
                rw e (Balanced-Counted start _ h ((assert_can_call_tool_iff _ _).0 free).1 c)
          ];
  }

  run_calls-Preserves : (calls : List ToolCall) → Preserves Books (run_calls env calls)
  unfolding run_calls
  run_calls-Preserves [] = Preserves-pure _
  run_calls-Preserves (call ∷ calls) =
      Preserves-bind _ _ (run_call-Preserves call) λ _. run_calls-Preserves calls

  use_tools-Preserves :
      (text : String) (calls : List ToolCall) → Preserves Books (use_tools env text calls)
  unfolding use_tools
  use_tools-Preserves text [] = Preserves-pure _
  use_tools-Preserves text (call ∷ calls) =
      Preserves-bind _ _ (Preserves-modify _ (λ frame h. h))
        λ _. Preserves-bind _ _ (run_calls-Preserves (call ∷ calls)) λ _. Preserves-pure _

  round-Preserves :
      (prompt : String) (tools : List String) → Preserves Books (round env prompt tools)
  unfolding round
  round-Preserves prompt tools = Preserves-bind _ _ (Preserves-gets _) λ messages.
      Preserves-bind _ _ (on_ctx-chat-Preserves _)
        λ resp. Preserves-bind _ _ (Preserves-modify _ (λ frame h. h)) λ _. use_tools-Preserves _ _

  rounds-Preserves :
      (prompt : String) (tools : List String) (n : ℕ) → Preserves Books (rounds env prompt tools n)
  unfolding rounds
  rounds-Preserves prompt tools zero = Preserves-pure _
  rounds-Preserves prompt tools (suc n) =
      Preserves-bind _ _ (round-Preserves prompt tools)
        (elim [ true ↦ rounds-Preserves prompt tools n | false ↦ Preserves-pure _ ])

  finish_loop-Balanced :
      (result : Result Unit) (frame : Frame W) {resp : LlmResponse}
      → Books frame
      → (finish_loop env result frame).0 ≡ return resp
      → Balanced start resp.dispatched_tool_calls (finish_loop env result frame).1
  unfolding finish_loop
  finish_loop-Balanced (return _) frame h e =
      subst (λ l. Balanced start l frame.ctx) (ap reported e) h
  finish_loop-Balanced (raise (budget_exhausted _)) frame h e =
      subst (λ l. Balanced start l frame.ctx) (ap reported e) h
  finish_loop-Balanced (raise _) frame h e = cc

  -- When the tool loop returns, whether the model stopped asking, the rounds were used up or the
  -- budget ran out, the tool calls that it reports are as many as the budget has counted since its
  -- start and as the rows that it has added at the end of the store; unless there was none, the number
  -- of calls is within the limit.
  pub tool_loop-Balanced :
      (prompt user_text : String) (tools : List String) (max_iterations : ℕ) {resp : LlmResponse}
      → (tool_loop env prompt user_text tools max_iterations start).0 ≡ return resp
      → Balanced start resp.dispatched_tool_calls
          (tool_loop env prompt user_text tools max_iterations start).1
  unfolding tool_loop
  tool_loop-Balanced prompt user_text tools max_iterations e =
      finish_loop-Balanced _ _
        ((rounds-Preserves prompt tools max_iterations).after _ (Balanced-refl start)) e

finish_loop_raises :
    {W : Type 0} (env : Environment W) (result : Result Unit) (frame : Frame W) {e : Exception}
    → (finish_loop env result frame).0 ≡ raise e
    → is_budget_exhausted e ≡ false
unfolding finish_loop
finish_loop_raises env result frame h = ground arith

-- A tool loop that raises does not raise `BudgetExhausted`.
pub tool_loop_raises :
    {W : Type 0} (env : Environment W) (prompt user_text : String) (tools : List String)
    (max_iterations : ℕ) (ctx : Context W) {e : Exception}
    → (tool_loop env prompt user_text tools max_iterations ctx).0 ≡ raise e
    → is_budget_exhausted e ≡ false
unfolding tool_loop
tool_loop_raises env prompt user_text tools max_iterations ctx h = finish_loop_raises env _ _ h
