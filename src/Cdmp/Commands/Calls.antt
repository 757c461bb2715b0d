-- ===== src/Cdmp/Commands/Calls.antt =====
-- cdmp_command_service.cpp: a command that one unit sends, another handles, and whose response comes back.
use rt_core.Prelude.{
  ℕ, ◌≤◌, ◌≡◌, ◌≢◌, refl, ap, ◌∙◌, Bool, true, not, some, List, [], ◌∷◌, ◌++◌, arith, ◌==◌,
}
use rt_core.Prelude.Tables.{keep_if}
use rt_core.Cdmp.Status.{online, same_status}
use rt_core.Cdmp.Messages.Command.{
  CommandRequest, command_request_to_frame, command_request_from_frame, command_response_to_frame,
  command_response_from_frame,
}
use rt_core.Cdmp.Network.Service.{OwnDevice}
use rt_core.Cdmp.Transactions.{
  PendingTransaction, TransactionService, Ended, answered, start_transaction, has_id, extract,
  is_response_to, complete_transaction, get_next_transaction_id,
}
use rt_core.Cdmp.Commands.{
  CommandResult, CommandService, request, response, is_valid_service_command_code,
  is_valid_user_command_code, call_handler, result, make_response, process_request,
  process_user_request, process_request_frame, process_response_frame, send_command,
  send_command_response, notify_command_handler,
}

-- The transaction that a command begins.
abbrev pub begun : ℕ → ℕ → ℕ → ℕ → Bool → TransactionService → PendingTransaction
begun now timeout_ms target c has_callback s = record {
  transaction_id = s.next_transaction_id;
  start_time = now;
  timeout = timeout_ms;
  has_callback = has_callback;
  expected_command = c;
  target_device_id = target;
}

abbrev pub asked : ℕ → ℕ → ℕ → List ℕ → CommandRequest
asked id target c payload = record {
  target_device_id = target;
  command_code = c;
  transaction_id = id;
  payload = payload;
}

-- The unit `unit` is online and has a handler for the command, which answers `r`.
pub record CanAnswer (unit : OwnDevice) (m : CommandRequest) (r : CommandResult)
    (s : CommandService) : Type 0 where
  pub bus : s.has_bus ≡ true
  pub status : unit.status ≡ online
  pub code_least : 0x20 ≤ m.command_code
  pub code_most : m.command_code ≤ 0xFF
  pub addressed : m.target_device_id ≡ unit.device_id
  pub handles : call_handler m s ≡ result r

send-frame :
    (now timeout_ms target c : ℕ) (payload : List ℕ) (has_callback : Bool) (s : CommandService)
    → s.has_bus ≡ true
    → c ≢ 0
    → let (id, t) = send_command now timeout_ms target c payload has_callback s in
      (id ≡ s.transactions.next_transaction_id)
      × (t.sent
          ≡ s.sent
            ++ request (
                command_request_to_frame
                  (asked s.transactions.next_transaction_id target c payload))
              ∷ [])
      × (t.transactions ≡ (start_transaction target c timeout_ms has_callback now s.transactions).1)
      × (t.ended ≡ s.ended)
unfolding send_command start_transaction get_next_transaction_id
send-frame now timeout_ms target c payload has_callback s bus pos =
    (ground arith, ground arith, ground arith, ground arith)

answer-frame :
    (unit : OwnDevice) (health : ℕ) (m : CommandRequest) (r : CommandResult) (s : CommandService)
    → CanAnswer unit m r s
    → (process_request unit health m s).sent
      ≡ s.sent ++ response 0 (command_response_to_frame (make_response unit m r)) ∷ []
unfolding process_request process_user_request is_valid_service_command_code
    is_valid_user_command_code same_status send_command_response notify_command_handler
answer-frame unit health m r s a =
    ground (arith, a.bus, a.status, a.code_least, a.code_most, a.addressed, a.handles)

complete-answer :
    (unit : OwnDevice) (now timeout_ms c : ℕ) (payload : List ℕ) (has_callback : Bool)
    (r : CommandResult) (s : TransactionService)
    → let id = s.next_transaction_id in
      let begun_1 = begun now timeout_ms unit.device_id c has_callback s in
      let (t, ended) =
        complete_transaction
          (make_response unit (asked id unit.device_id c payload) r)
          (start_transaction unit.device_id c timeout_ms has_callback now s).1 in
      (t.pending ≡ keep_if (λ p. not (has_id id p)) s.pending)
      × (ended ≡ record { transaction = begun_1; outcome = answered r.result_code r.payload } ∷ [])
unfolding complete_transaction start_transaction get_next_transaction_id extract has_id
    is_response_to make_response
complete-answer unit now timeout_ms c payload has_callback r s =
    let ids : (s.next_transaction_id == s.next_transaction_id) ≡ true = ground arith in
    let codes : (c == c) ≡ true = ground arith in
    let units : (unit.device_id == unit.device_id) ≡ true = ground arith in
    (ground (arith, ids, codes, units), ground (arith, ids, codes, units))

-- What becomes of a command with the transaction `id`: the caller asks, the other unit answers, and the
-- caller's transaction ends with the answer.
pub record IsAnswered (s u w : CommandService) (q : List ℕ) (begun_1 : PendingTransaction)
    (r : CommandResult) : Type 0 where
  pub asks : u.sent ≡ s.sent ++ request q ∷ []
  pub ends :
      w.ended
      ≡ s.ended ++ record { transaction = begun_1; outcome = answered r.result_code r.payload } ∷ []
  pub no_longer_pending :
      w.transactions.pending
      ≡ keep_if (λ t. not (has_id begun_1.transaction_id t)) s.transactions.pending

-- A command of 0x20 to 0xFF from one unit on a bus to one that is online, and whose handler for it answers `r`:
-- the other unit takes the caller's frame and sends one response at once; the caller takes that frame, and
-- then exactly the transaction of the command has ended, with the handler's result and data, and the
-- other transactions wait as before.
pub call-IsAnswered :
    (unit : OwnDevice) (health now timeout_ms c : ℕ) (payload : List ℕ) (has_callback : Bool)
    (s t : CommandService) (r : CommandResult)
    → s.has_bus ≡ true
    → CanAnswer unit (asked s.transactions.next_transaction_id unit.device_id c payload) r t
    → let m = asked s.transactions.next_transaction_id unit.device_id c payload in
      let q = command_request_to_frame m in
      let p = command_response_to_frame (make_response unit m r) in
      let u = (send_command now timeout_ms unit.device_id c payload has_callback s).1 in
      (v w : CommandService) × (process_request_frame unit health q t ≡ some v)
      × (v.sent ≡ t.sent ++ response 0 p ∷ [])
      × (process_response_frame p u ≡ some w)
      × IsAnswered s u w q (begun now timeout_ms unit.device_id c has_callback s.transactions) r
unfolding process_request_frame process_response_frame command_request_from_frame
    command_request_to_frame command_response_from_frame command_response_to_frame
call-IsAnswered unit health now timeout_ms c payload has_callback s t r bus a =
    let m = asked s.transactions.next_transaction_id unit.device_id c payload in
    let (id, asks, started, same) =
      send-frame now timeout_ms unit.device_id c payload has_callback s bus
        (λ e. let least = a.code_least in absurd (omega arith)) in
    let u = (send_command now timeout_ms unit.device_id c payload has_callback s).1 in
    let done = complete_transaction (make_response unit m r) u.transactions in
    let (left, ended) =
      complete-answer unit now timeout_ms c payload has_callback r s.transactions in
    let last : List Ended =
      record {
        transaction = begun now timeout_ms unit.device_id c has_callback s.transactions;
        outcome = answered r.result_code r.payload;
      }
      ∷ [] in
    let e : done
        ≡ complete_transaction (make_response unit m r)
            (start_transaction unit.device_id c timeout_ms has_callback now s.transactions).1 =
      ap (complete_transaction (make_response unit m r)) started in
    (
      process_request unit health m t,
      record u { transactions = done.0; ended = u.ended ++ done.1 },
      refl,
      answer-frame unit health m r t a,
      refl,
      record {
        asks = asks;
        ends = ap (λ x. u.ended ++ x) (ap (λ x. x.1) e ∙ ended) ∙ ap (λ x. x ++ last) same;
        no_longer_pending = ap (λ x. x.0.pending) e ∙ left;
      },
    )
