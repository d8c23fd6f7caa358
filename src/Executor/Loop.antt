-- ===== src/Executor/Loop.antt =====
-- Invariants of the loops over maps and of the loop over the files.
use crossform.Common.{String, Bool, true, false, ◌≡◌, List, [], ◌∷◌, arith, inl, inr, Option}
use crossform.Common.Dict.{Dict, put, has}
use crossform.Common.Json.{Value, Fields}
use crossform.Common.Outcome.{
  Outcome, ok, ◌>>=◌, Outcome-cases, Ensures, Ensures-ok, Ensures-bind, Ensures-then, Ensures-self,
}
use crossform.Executor.Types.{
  Crossform, DesiredComposed, ResourceSelector, ExecCommand, ExecResult, new_exec_result,
}
use crossform.Executor.Interface.{GenericExecutor}
use crossform.Executor.File.{FileResult}
use crossform.Executor.Exec.{
  make_request_result, merge, add_request_error, add_desired_error, add_output, add_output_errors,
  xr_outputs_of, exec_inputs, exec_round, exec, each, fold, requires_ready, with_ready, add_desired,
  exec_one, exec_loop,
}

-- What every round keeps, a loop that is not stopped keeps.
pub each-Ensures :
    {V S : Type 0} (P : S → Type 0) (f : String → V → S → Outcome S)
    → ((k : String) (v : V) (s : S) → P s → Ensures P (f k v s))
    → (m : Dict V) (s : S) → P s
    → Ensures P (each f m s)
unfolding each
each-Ensures P f keep [] s p = Ensures-ok s p
each-Ensures P f keep ((k, v) ∷ m) s p = Ensures-bind P _ _ (keep k v s p) (each-Ensures P f keep m)

pub fold-inv :
    {V S : Type 0} (P : S → Type 0) (f : String → V → S → S)
    → ((k : String) (v : V) (s : S) → P s → P (f k v s))
    → (m : Dict V) (s : S) → P s
    → P (fold f m s)
unfolding fold
fold-inv P f keep [] s p = p
fold-inv P f keep ((k, v) ∷ m) s p = fold-inv P f keep m (f k v s) (keep k v s p)

-- A desired resource that is accepted was not there yet, and is stored as it is or marked ready.
pub add_desired-inv :
    (marshal_json : Fields → Outcome String) (k : String) (v : DesiredComposed) (r r' : ExecResult)
    → add_desired marshal_json k v r ≡ ok r'
    → (b : Bool) × (has k r.desired ≡ false)
      × (requires_ready v.resource ≡ ok b)
      × (r' ≡ record r { desired = put k (with_ready b v) r.desired })
unfolding ◌>>=◌
add_desired-inv marshal_json k v r r' h = elim (Outcome-cases (requires_ready v.resource)) [
  | inl (b, p) ↦ (b, ground arith, p, ground arith)
  | inr other ↦ absurd (ground arith)
]

module _ (marshal_json : Fields → Outcome String) (cmd : ExecCommand) (e : GenericExecutor)
    (P : ExecResult → Type 0) where
  pub exec_loop-Ensures :
      ((file : String) (s : ExecResult × Bool)
        → P s.0
        → Ensures (λ (t : ExecResult × Bool). P t.0) (exec_one marshal_json cmd e file s))
      → (files : List String) (s : ExecResult × Bool) → P s.0
      → Ensures (λ (t : ExecResult × Bool). P t.0) (exec_loop marshal_json cmd e files s)
  unfolding exec_loop
  exec_loop-Ensures keep [] s p = Ensures-ok s p
  exec_loop-Ensures keep (file ∷ files) s p =
      Ensures-bind (λ (t : ExecResult × Bool). P t.0) _ _ (keep file s p)
        (λ t q. exec_loop-Ensures keep files t q)

-- What every step of a merge keeps, the merge establishes.
module _ (marshal_json : Fields → Outcome String) (cmd : ExecCommand) (P : ExecResult → Type 0)
    (request_error : (k err : String) (s : ExecResult)
      → P s
      → Ensures P (add_request_error k err s))
    (desired : (k : String) (v : DesiredComposed) (s : ExecResult)
      → P s
      → Ensures P (add_desired marshal_json k v s))
    (desired_error : (k err : String) (s : ExecResult)
      → P s
      → Ensures P (add_desired_error cmd k err s))
    (output : (k : String) (v : Value) (s : ExecResult) → P s → Ensures P (add_output k v s))
    (output_errors : (t : Option Fields) (m : Dict String) (s : ExecResult)
      → xr_outputs_of cmd ≡ ok t
      → P s
      → P (add_output_errors t m s)) where
  pub merge-Ensures :
      (second : FileResult) (r : ExecResult)
      → ((request : Dict ResourceSelector)
          → make_request_result r.request second.requests ≡ ok request
          → P (record r { deferred = second.resources_deferred; request = request }))
      → Ensures P (merge marshal_json cmd second r)
  unfolding merge
  merge-Ensures second r first =
      Ensures-bind (λ request. make_request_result r.request second.requests ≡ ok request) _ _
        (Ensures-self _)
        λ request made.
          Ensures-bind P _ _ (each-Ensures P _ request_error _ _ (first request made)) λ r₂ p₂.
            Ensures-bind P _ _ (each-Ensures P _ desired _ _ p₂) λ r₃ p₃.
              Ensures-bind P _ _ (each-Ensures P _ desired_error _ _ p₃) λ r₄ p₄.
                Ensures-bind P _ _ (each-Ensures P _ output _ _ p₄) λ r₅ p₅.
                  Ensures-bind (λ t. xr_outputs_of cmd ≡ ok t) _ _ (Ensures-self _)
                    λ t q. Ensures-ok _ (output_errors t _ r₅ q p₅)

-- What the inputs, the requests and a merge keep holds of a whole run, if it holds at the start.
module _ (marshal_json : Fields → Outcome String) (cmd : ExecCommand) (P : ExecResult → Type 0)
    (e : GenericExecutor)
    (inputs : (first : FileResult) (r : ExecResult) → P r → Ensures P (exec_inputs cmd e first r))
    (requests : (r : ExecResult) (asked : Dict Crossform) (request : Dict ResourceSelector)
      → make_request_result r.request asked ≡ ok request
      → P r
      → P (record r { request = request }))
    (merged : (second : FileResult) (r : ExecResult)
      → P r
      → Ensures P (merge marshal_json cmd second r)) where
  exec_round-Ensures :
      (file : String) (first : FileResult) (r : ExecResult) (missing : Bool)
      → P r
      → Ensures
          (λ (t : ExecResult × Bool). P t.0)
          (exec_round marshal_json cmd e file first r missing)
  unfolding exec_round
  exec_round-Ensures file first r true p =
      Ensures-bind (λ request. make_request_result r.request first.requests ≡ ok request) _ _
        (Ensures-self _) λ request made. Ensures-ok _ (requests r first.requests request made p)
  exec_round-Ensures file first r false p =
      Ensures-then _ _ λ second. Ensures-bind P _ _ (merged second r p) λ r' p'. Ensures-ok _ p'

  exec_one-Ensures :
      (file : String) (s : ExecResult × Bool)
      → P s.0
      → Ensures (λ (t : ExecResult × Bool). P t.0) (exec_one marshal_json cmd e file s)
  unfolding exec_one
  exec_one-Ensures file (r, missing) p =
      Ensures-then _ _ λ first.
        Ensures-bind P _ _ (inputs first r p) λ r' p'. exec_round-Ensures file first r' _ p'

  pub exec-Ensures : P new_exec_result → Ensures P (exec marshal_json cmd e)
  unfolding exec
  exec-Ensures p =
      Ensures-bind (λ (t : ExecResult × Bool). P t.0) _ _
        (exec_loop-Ensures marshal_json cmd e P exec_one-Ensures e.get_file_names _ p)
        λ (r, missing) q. Ensures-ok r q
