-- ===== src/Cdmp/Transactions.antt =====
-- subsys/cdmp/services/command_service/cdmp_transaction_service.h and .cpp: commands that wait for their
-- response. The map of pending transactions is a list with one entry for each identifier, the callback of
-- a transaction is a value of an abstract type, and a call of it is recorded.
pub mod Fresh
pub mod Balance
use rt_core.Prelude.{
  ℕ, zero, suc, ◌+◌, ◌-◌, ◌%◌, Bool, true, false, not, ◌&&◌, ◌||◌, Option, none, some, List, [],
  ◌∷◌, ◌++◌, length, map, leb, ◌==◌, ◌!=◌, if◌then◌else◌,
}
use rt_core.Prelude.Bits.{u8, u64}
use rt_core.Prelude.Tables.{keep_if, any_of, find_index, remove_at}
use rt_core.Cdmp.Messages.Command.{CommandResponse}

-- `has_callback` false is a null std::function.
pub record PendingTransaction : Type 0 where
  pub transaction_id : ℕ
  pub start_time : ℕ
  pub timeout : ℕ
  pub has_callback : Bool
  pub expected_command : ℕ
  pub target_device_id : ℕ

-- `is_timeout_task_due` is the scheduled timeout_task_.
pub record TransactionService : Type 0 where
  pub has_timeout_task : Bool
  pub is_timeout_task_running : Bool
  pub is_timeout_task_due : Bool
  pub next_transaction_id : ℕ
  pub pending : List PendingTransaction

-- CdmpResultCode, as far as the service makes results of its own.
pub data Outcome : Type 0 where
  answered : ℕ → List ℕ → Outcome
  timed_out cancelled : Outcome

-- What happened to a transaction that is no longer pending.
pub record Ended : Type 0 where
  pub transaction : PendingTransaction
  pub outcome : Outcome

abbrev pub device_id_broadcast : ℕ
device_id_broadcast = 0xFF

unfoldable pub has_id : ℕ → PendingTransaction → Bool
has_id id t = t.transaction_id == id

unfoldable pub is_pending : ℕ → List PendingTransaction → Bool
unfolding any_of has_id
is_pending id pending = any_of (has_id id) pending

-- `next_transaction_id_++` on a byte, which skips 0.
unfoldable pub following_id : ℕ → ℕ
following_id id = if u8 (id + 1) == 0 then 1 else u8 (id + 1)

-- The do-while loop.
unfoldable pub next_free_id : ℕ → ℕ → List PendingTransaction → ℕ → ℕ
unfolding following_id is_pending
next_free_id zero transaction_id pending id = id
next_free_id (suc fuel) transaction_id pending id =
    let next = following_id id in
    let rest = next_free_id fuel transaction_id pending next in
    if is_pending next pending && next != transaction_id then rest else next

-- The rounds after which the loop is back at the identifier that it started from.
abbrev pub id_count : ℕ
id_count = 255

unfoldable pub get_next_transaction_id : TransactionService → ℕ × TransactionService
get_next_transaction_id s =
    let transaction_id = s.next_transaction_id in
    (
      transaction_id,
      record s {
        next_transaction_id = next_free_id id_count transaction_id s.pending transaction_id;
      },
    )

unfoldable pub start_transaction :
    ℕ → ℕ → ℕ → Bool → ℕ → TransactionService → ℕ × TransactionService
unfolding get_next_transaction_id has_id keep_if
start_transaction target_device_id expected_command timeout has_callback now s =
    let (transaction_id, t) = get_next_transaction_id s in
    let transaction : PendingTransaction = record {
      transaction_id = transaction_id;
      start_time = now;
      timeout = timeout;
      has_callback = has_callback;
      expected_command = expected_command;
      target_device_id = target_device_id;
    } in
    (
      transaction_id,
      record t { pending = transaction ∷ keep_if (λ p. not (has_id transaction_id p)) t.pending },
    )

unfoldable pub is_response_to : PendingTransaction → CommandResponse → Bool
is_response_to t r =
    r.command_code == t.expected_command
    && (t.target_device_id == device_id_broadcast || r.source_device_id == t.target_device_id)

-- The first entry that passes a test, and the others.
unfoldable pub extract :
    (PendingTransaction → Bool)
    → List PendingTransaction
    → Option (PendingTransaction × List PendingTransaction)
extract holds [] = none
extract holds (p ∷ ps) =
    let later : Option (PendingTransaction × List PendingTransaction) = elim (extract holds ps) [
      | none ↦ none
      | some (q, rest) ↦ some (q, p ∷ rest)
    ] in
    if holds p then some (p, ps) else later

unfoldable pub complete_transaction :
    CommandResponse → TransactionService → TransactionService × List Ended
unfolding extract has_id is_response_to
complete_transaction r s = elim (extract (has_id r.transaction_id) s.pending) [
  | none ↦ (s, [])
  | some (t, rest) ↦ if not (is_response_to t r) then (s, []) else (
    record s { pending = rest },
    record { transaction = t; outcome = answered r.result_code r.payload } ∷ [],
  )
]

-- `current_time - start_time >= timeout` on uint64_t: it wraps for a transaction that was started after
-- `now` was read. `timeout` is held as it is after its cast to uint64_t.
unfoldable pub has_expired : ℕ → PendingTransaction → Bool
has_expired now t = leb t.timeout (u64 (now + 18446744073709551616 - t.start_time))

-- One round of the loop of CleanupExpiredTransactions(), which takes one expired transaction off the map
-- under the lock. Between two rounds, with the time read before the first, other operations may run.
unfoldable pub expire_next : ℕ → TransactionService → TransactionService × List Ended
unfolding extract has_expired
expire_next now s = elim (extract (has_expired now) s.pending) [
  | none ↦ (s, [])
  | some (t, rest) ↦
      (record s { pending = rest }, record { transaction = t; outcome = timed_out } ∷ [])
]

-- The rounds of the loop with no other operation between them.
unfoldable pub cleanup_expired :
    ℕ → ℕ → List PendingTransaction → List PendingTransaction × List Ended
unfolding extract has_expired
cleanup_expired zero now pending = (pending, [])
cleanup_expired (suc fuel) now pending = elim (extract (has_expired now) pending) [
  | none ↦ (pending, [])
  | some (t, rest) ↦
      let (left, ended) = cleanup_expired fuel now rest in
      (left, record { transaction = t; outcome = timed_out } ∷ ended)
]

unfoldable pub start : TransactionService → TransactionService
start s =
    if not s.is_timeout_task_running && s.has_timeout_task
    then record s { is_timeout_task_running = true; is_timeout_task_due = true }
    else s

unfoldable pub stop : TransactionService → TransactionService × List Ended
stop s = (
  record s { is_timeout_task_running = false; is_timeout_task_due = false; pending = [] },
  map (λ t. record { transaction = t; outcome = cancelled }) s.pending,
)

unfoldable pub process_transaction_timeouts :
    ℕ → TransactionService → TransactionService × List Ended
unfolding cleanup_expired
process_transaction_timeouts now s =
    if not s.is_timeout_task_running || not s.has_timeout_task
    then (record s { is_timeout_task_due = false }, [])
    else let (left, ended) = cleanup_expired (length s.pending) now s.pending in
      (record s { is_timeout_task_due = true; pending = left }, ended)

-- The transactions whose callback is called, in order.
unfoldable pub called : List Ended → List Ended
unfolding keep_if
called ended = keep_if (λ e. e.transaction.has_callback) ended
