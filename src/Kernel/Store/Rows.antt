-- ===== src/Kernel/Store/Rows.antt =====
-- `parseEventRows`, `eventGroups` and `verifyTransactionRows`: what the rows of the database must say
-- of each other before their events are taken for the log.
use fdos_genesis.Prelude.{
  ℕ, ◌+◌, ◌==◌, Bool, true, false, not, ◌&&◌, String, Option, none, some, List, [], ◌∷◌, ltb, ◌is◌,
  same_option, is_some, if◌then◌else◌,
}
use fdos_genesis.Kernel.Result.{
  Result, ok, err, integrity, validation, guard, or_throw, ◌>>=◌, ◌>>◌,
}
use fdos_genesis.Kernel.Validation.{Stamp, iso_date}
use fdos_genesis.Kernel.JsMap.{JsMap}
use fdos_genesis.Kernel.JsMap
use fdos_genesis.Kernel.EventLog.{Event, verify_audit_event_chain}
use fdos_genesis.Kernel.Store.{EventRow, TransactionRow, Outside, transaction_id}

module _ {P : Type 0} (outside : Outside P) where
  -- A row against the event that its text holds.
  abbrev pub matches_row : EventRow → Event P → Bool
  matches_row row event =
      row.sequence == event.sequence
      && row.id is event.id
      && same_option row.transaction_id event.transaction_id
      && row.hash is event.hash
      && same_option row.previous_hash event.previous_hash
      && row.event_json is outside.canonical_json event

  unfoldable pub parse_row : EventRow → Result (Event P)
  parse_row row = do
    event ← or_throw (outside.json_parse row.event_json) integrity
    guard (matches_row row event) integrity
    ok event

  unfoldable pub parse_rows : List EventRow → Result (List (Event P))
  parse_rows [] = ok []
  parse_rows (row ∷ rows) = do event ← parse_row row; events ← parse_rows rows; ok (event ∷ events)

  unfoldable pub parse_event_rows : List EventRow → Result (List (Event P))
  unfolding parse_rows
  parse_event_rows rows = do
    events ← parse_rows rows
    verify_audit_event_chain outside.digest events
    ok events

pub record Group : Type 0 where
  pub event_count : ℕ
  pub first_sequence : ℕ
  pub last_sequence : ℕ
  pub head_hash : String

module _ {P : Type 0} where
  abbrev pub grown : Event P → Option Group → Group
  grown event none = record {
    event_count = 1;
    first_sequence = event.sequence;
    last_sequence = event.sequence;
    head_hash = event.hash;
  }
  grown event (some g) = record g {
    event_count = g.event_count + 1;
    last_sequence = event.sequence;
    head_hash = event.hash;
  }

  abbrev pub add_to_group : Event P → Option String → JsMap Group → Result (JsMap Group)
  add_to_group event none groups = ok groups
  add_to_group event (some t) groups = do
    id ← transaction_id t
    ok (JsMap.set id (grown event (JsMap.get id groups)) groups)

  unfoldable pub event_groups : JsMap Group → List (Event P) → Result (JsMap Group)
  event_groups groups [] = ok groups
  event_groups groups (event ∷ events) =
      add_to_group event event.transaction_id groups >>= λ g. event_groups g events

abbrev pub is_count : Option ℕ → ℕ → Bool
is_count none n = false
is_count (some m) n = m == n

abbrev pub matches_group : TransactionRow → Group → Bool
matches_group row g =
    row.event_count == g.event_count
    && is_count row.first_sequence g.first_sequence
    && is_count row.last_sequence g.last_sequence
    && same_option row.head_hash (some g.head_hash)

-- `isoDate(row.committed_at)`: `null` is no date.
abbrev pub iso_date_of : Option Stamp → Result ℕ
iso_date_of none = err validation
iso_date_of (some t) = iso_date t

unfoldable pub verify_committed :
    JsMap Group → TransactionRow → (id : String) → ℕ → Result (Unit {0})
verify_committed groups row id started_at = do
  committed_at ← iso_date_of row.committed_at
  guard (not (ltb committed_at started_at)) integrity
  group ← or_throw (JsMap.get id groups) integrity
  guard (matches_group row group) integrity

-- One round of the loop over the rows.
unfoldable pub verify_row :
    JsMap Group
    → (active : Option String) → JsMap TransactionRow
    → TransactionRow
    → Result (JsMap TransactionRow)
unfolding verify_committed
verify_row groups active records row = do
  id ← transaction_id row.id
  guard (not (JsMap.has id records)) integrity
  started_at ← iso_date row.started_at
  (if same_option (some id) active
      then guard (not (is_some row.committed_at)) integrity
      else verify_committed groups row id started_at)
  ok (JsMap.set id row records)

unfoldable pub verify_rows :
    JsMap Group
    → (active : Option String) → JsMap TransactionRow
    → List TransactionRow
    → Result (JsMap TransactionRow)
verify_rows groups active records [] = ok records
verify_rows groups active records (row ∷ rows) =
    verify_row groups active records row >>= λ r. verify_rows groups active r rows

abbrev pub keys_known : JsMap Group → JsMap TransactionRow → Bool
keys_known [] records = true
keys_known ((id, g) ∷ groups) records = JsMap.has id records && keys_known groups records

abbrev pub active_known : Option String → JsMap TransactionRow → Bool
active_known none records = true
active_known (some id) records = JsMap.has id records

unfoldable pub verify_transaction_rows :
    {P : Type 0}
    → List (Event P)
    → List TransactionRow
    → (active : Option String) → Result (Unit {0})
unfolding event_groups verify_rows
verify_transaction_rows events rows active = do
  groups ← event_groups [] events
  records ← verify_rows groups active [] rows
  guard (keys_known groups records) integrity
  guard (active_known active records) integrity
