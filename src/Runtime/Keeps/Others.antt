-- ===== src/Runtime/Keeps/Others.antt =====
-- The commands on approvals and memory.
use fdos_genesis.Prelude.{ℕ, String, List}
use fdos_genesis.Kernel.Exec.Holds.{Holds}
use fdos_genesis.Kernel.EventLog.{Actor}
use fdos_genesis.Model.{Task}
use fdos_genesis.Runtime.{Environment, Live}
use fdos_genesis.Kernel.Json.{Json}
use fdos_genesis.Domain.Catalog.{Sensitivity}
use fdos_genesis.Model.{Approval}
use fdos_genesis.Runtime.Keeps.{Kept, command_rules}
use fdos_genesis.Runtime.Approvals.{
  expire, request_approval, decide, decide_approval, ApprovalDecision, granted, denied,
}
use fdos_genesis.Runtime.Memories.{propose_memory, review_memory, ReviewDecision}

module _ (env : Environment) {P E : Live env → Type 0} (k : Kept env P E) where
  expire-Holds :
      (trigger : Actor) (task : Task) (at : ℕ) (a : Approval)
      → Holds P E (expire env trigger task at a)
  unfolding expire
  expire-Holds trigger task at a = search command_rules

  pub request_approval-Holds :
      (id : String) (actor : Actor) (reason : String) (ttl : ℕ)
      → Holds P E (request_approval env id actor reason ttl)
  unfolding request_approval
  request_approval-Holds id actor reason ttl =
      search (command_rules, expire-Holds) depth 80 fits 4000

  decide-Holds :
      (actor : Actor) (task : Task) (a : Approval) (decision : ApprovalDecision) (reason : String)
      (at : ℕ)
      → Holds P E (decide env actor task a decision reason at)
  unfolding decide
  decide-Holds actor task a granted reason at = search command_rules
  decide-Holds actor task a denied reason at = search command_rules

  pub decide_approval-Holds :
      (id : String) (actor : Actor) (decision : ApprovalDecision) (reason : String)
      → Holds P E (decide_approval env id actor decision reason)
  unfolding decide_approval
  decide_approval-Holds id actor decision reason =
      search (command_rules, expire-Holds, decide-Holds) depth 60 fits 3000

  pub propose_memory-Holds :
      (actor : Actor) (scope title content : String) (sensitivity : Sensitivity)
      (references : List String) (evidence : List Json)
      → Holds P E (propose_memory env actor scope title content sensitivity references evidence)
  unfolding propose_memory
  propose_memory-Holds actor scope title content sensitivity references evidence =
      search command_rules depth 80 fits 4000

  pub review_memory-Holds :
      (id : String) (actor : Actor) (decision : ReviewDecision) (reason : String)
      → Holds P E (review_memory env id actor decision reason)
  unfolding review_memory
  review_memory-Holds id actor decision reason = search command_rules depth 60 fits 3000
