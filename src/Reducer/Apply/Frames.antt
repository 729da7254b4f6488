-- ===== src/Reducer/Apply/Frames.antt =====
-- The events of runs, tasks, approvals, memory and invocations leave the outbox alone, whether
-- they are applied or refused.
use fdos_genesis.Prelude.{ℕ, ◌≡◌, refl, Bool, String, Option, List, [], ◌∷◌, arith}
use fdos_genesis.Kernel.Exec.{modify}
use fdos_genesis.Kernel.Exec.Leaves.{
  Leaves, Leaves-pure, Leaves-reading, Leaves-throw_if, Leaves-bind,
}
use fdos_genesis.Kernel.Validation.{Stamp}
use fdos_genesis.Kernel.Json.{Fields}
use fdos_genesis.Kernel.JsMap
use fdos_genesis.Model.{
  State, Run, Task, Approval, Memory, MemoryStatus, UnsignedDefinition, UnsignedReceipt, Receipt,
  Delivery, AcceptedInvocation,
}
use fdos_genesis.Reducer.Payload.{RuntimeEvent}
use fdos_genesis.Reducer.Store.{
  require_run, require_task, update_run, update_task, update_approval, update_memory,
}
use fdos_genesis.Reducer.Workflow.{
  add_tasks, start_run, ready_task, claim_task, complete_task, fail_task, retry_task, cancel_task,
  create_handoff, complete_run, set_task, set_run,
}
use fdos_genesis.Reducer.Approvals.{
  request_approval, grant_approval, deny_approval, expire_approval, consume_approval,
  propose_memory, review_memory,
}
use fdos_genesis.Reducer.Invocations.{accept_invocation}

abbrev pub outbox : State → JsMap.JsMap Delivery
outbox s = s.outbox

abbrev pub invocations : State → JsMap.JsMap AcceptedInvocation
invocations s = s.accepted_invocations

-- What those events leave alone.
abbrev pub rest : State → JsMap.JsMap Delivery × JsMap.JsMap AcceptedInvocation
rest s = (s.outbox, s.accepted_invocations)

update_run-Leaves : (id : String) (f : Run → Run) → Leaves rest (update_run id f)
unfolding update_run
update_run-Leaves id f = record { at = λ s. ground arith }

update_task-Leaves : (id : String) (f : Task → Task) → Leaves rest (update_task id f)
unfolding update_task
update_task-Leaves id f = record { at = λ s. ground arith }

update_approval-Leaves :
    (id : String) (f : Approval → Approval) → Leaves rest (update_approval id f)
unfolding update_approval
update_approval-Leaves id f = record { at = λ s. ground arith }

update_memory-Leaves : (id : String) (f : Memory → Memory) → Leaves rest (update_memory id f)
unfolding update_memory
update_memory-Leaves id f = record { at = λ s. ground arith }

require_run-Leaves : (id : String) → Leaves rest (require_run id)
unfolding require_run
require_run-Leaves id = record { at = λ s. refl }

require_task-Leaves : (id : String) → Leaves rest (require_task id)
unfolding require_task
require_task-Leaves id = record { at = λ s. refl }

set_task-Leaves : (id : String) (t : Task) → Leaves rest (modify (set_task id t))
set_task-Leaves id t = record { at = λ s. refl }

ruleset quiet_rules = (
  Leaves-bind, Leaves-pure, Leaves-reading, Leaves-throw_if, update_run-Leaves, update_task-Leaves,
  update_approval-Leaves, update_memory-Leaves, require_run-Leaves, require_task-Leaves,
  set_task-Leaves,
)

pub ready_task-Leaves : (id : String) (at : Stamp) → Leaves rest (ready_task id at)
unfolding ready_task
ready_task-Leaves id at = search quiet_rules

pub claim_task-Leaves : (id by : String) (at : Stamp) → Leaves rest (claim_task id by at)
unfolding claim_task
claim_task-Leaves id by at = search quiet_rules

pub complete_task-Leaves :
    (id : String) (result : Fields) (digest : String) (at : Stamp)
    → Leaves rest (complete_task id result digest at)
unfolding complete_task
complete_task-Leaves id result digest at = search quiet_rules

pub fail_task-Leaves :
    (id reason : String) (retryable : Bool) (at : Stamp)
    → Leaves rest (fail_task id reason retryable at)
unfolding fail_task
fail_task-Leaves id reason retryable at = search quiet_rules

pub retry_task-Leaves :
    (id : String) (attempt : ℕ) (at : Stamp) → Leaves rest (retry_task id attempt at)
unfolding retry_task
retry_task-Leaves id attempt at = search quiet_rules

pub cancel_task-Leaves : (id : String) (at : Stamp) → Leaves rest (cancel_task id at)
unfolding cancel_task
cancel_task-Leaves id at = search quiet_rules

pub create_handoff-Leaves :
    (parent : String) (child : Task) (at : Stamp) → Leaves rest (create_handoff parent child at)
unfolding create_handoff
create_handoff-Leaves parent child at = search quiet_rules depth 12

pub complete_run-Leaves :
    (id digest : String) (head : Option String) (at : Stamp)
    → Leaves rest (complete_run id digest head at)
unfolding complete_run
complete_run-Leaves id digest head at = search quiet_rules

pub grant_approval-Leaves :
    (id by : String) (at expires : Stamp) → Leaves rest (grant_approval id by at expires)
unfolding grant_approval
grant_approval-Leaves id by at expires = search quiet_rules

pub deny_approval-Leaves :
    (id by : String) (at : Stamp) (reason : String) → Leaves rest (deny_approval id by at reason)
unfolding deny_approval
deny_approval-Leaves id by at reason = search quiet_rules

pub expire_approval-Leaves : (id : String) (at : Stamp) → Leaves rest (expire_approval id at)
unfolding expire_approval
expire_approval-Leaves id at = search quiet_rules

pub consume_approval-Leaves : (id : String) (at : Stamp) → Leaves rest (consume_approval id at)
unfolding consume_approval
consume_approval-Leaves id at = search quiet_rules

pub review_memory-Leaves :
    (id : String) (decision : MemoryStatus) (by : String) (at : Stamp) (reason : String)
    → Leaves rest (review_memory id decision by at reason)
unfolding review_memory
review_memory-Leaves id decision by at reason = search quiet_rules

pub propose_memory-Leaves : (m : Memory) → Leaves rest (propose_memory m)
unfolding propose_memory
propose_memory-Leaves m = record { at = λ s. ground arith }

pub request_approval-Leaves : (a : Approval) → Leaves rest (request_approval a)
unfolding request_approval update_task
request_approval-Leaves a = record { at = λ s. ground arith }

pub accept_invocation-Leaves :
    (digest_of : UnsignedReceipt → String) (e : RuntimeEvent) (receipt : Receipt) (at : Stamp)
    → Leaves outbox (accept_invocation digest_of e receipt at)
unfolding accept_invocation
accept_invocation-Leaves digest_of e receipt at = record { at = λ s. ground arith }

add_tasks_leave : (id : String) (ts : List Task) (s : State) → rest (add_tasks id ts s).1 ≡ rest s
unfolding add_tasks
add_tasks_leave id [] s = refl
add_tasks_leave id (t ∷ ts) s = ground (arith, add_tasks_leave id ts (set_task t.id t s))

pub start_run-Leaves :
    (digest_of : UnsignedDefinition → String) (r : Run) (ts : List Task)
    → Leaves rest (start_run digest_of r ts)
unfolding start_run
start_run-Leaves digest_of r ts = record {
  at = λ s. ground (arith, add_tasks_leave r.id ts (set_run r.id r s));
}
