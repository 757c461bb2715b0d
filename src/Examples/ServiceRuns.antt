-- ===== src/Examples/ServiceRuns.antt =====
-- The theorems on the services and the event bus at concrete inputs, and tests of their definitions.
use rt_core.Prelude.{
  ℕ, ◌+◌, ◌≤◌, ◌≡◌, refl, true, false, none, some, List, [], ◌∷◌, ◌++◌, replicate, arith,
}
use rt_core.Cdmp.Status.{init, claiming, online}
use rt_core.Cdmp.Messages.Command.{CommandResponse}
use rt_core.Cdmp.Messages.Network.{id_claim_response}
use rt_core.Cdmp.Transactions.{
  PendingTransaction, next_free_id, TransactionService, is_pending, start_transaction,
  complete_transaction, expire_next,
}
use rt_core.Cdmp.Transactions.Fresh.{IsService, new_transaction}
use rt_core.Cdmp.Transactions.Balance.{
  History, begins, starts, completes, Balanced, History-Balanced,
}
use rt_core.EventBus.AcceptanceCache.{empty_cache, find, store}
use rt_core.EventBus.AcceptanceCache.Refines.{
  Use, revalidates, stores, use_all, give_all, Refines, use_all-Refines,
}
use rt_core.Cdmp.Network.Devices.{
  NetworkDevice, PendingIdClaim, free_claim, get_lowest_available_id,
}
use rt_core.Cdmp.Network.Devices.Available.{FreeIf, Lowest, get_lowest_available_id-Free}
use rt_core.Cdmp.Network.Service.{NetworkService}
use rt_core.Cdmp.Network.Claim.{
  run_id_claim_attempt, run_discovery_attempt, begin_id_claim, begin_initialization,
}
use rt_core.Cdmp.Network.Service.{OwnDevice}
use rt_core.Cdmp.Heartbeat.{
  HeartbeatService, on_device_status_changed, set_heartbeat_enabled, process_periodic_heartbeat,
}
use rt_core.Cdmp.Messages.Command.{
  CommandRequest, command_request_to_frame, command_response_to_frame,
}
use rt_core.Cdmp.Commands.{
  CommandService, CommandResult, response, process_request_frame, process_response_frame,
  process_request, send_command, make_response, call_handler,
}
use rt_core.Cdmp.Commands.Calls.{asked, begun, IsAnswered, call-IsAnswered}
use rt_core.Cdmp.Commands.Answers.{Responds, process_request-Responds}
use rt_core.Cdmp.Heartbeat.Heard.{Beat, Heard, run_all, run_all-Heard}
use rt_core.Cdmp.Network.Frames.{process_frame, on_id_claim_response}
use rt_core.Cdmp.Network.Claim.Ends.{
  ClaimRun, begins as claim_begins, attempts, receives, claim_ends,
}
use rt_core.Cdmp.Network.Claim.Discovery.{
  DiscoveryRun, begins as discovery_begins, attempts as requests,
}

abbrev no_transactions : TransactionService
no_transactions = record {
  has_timeout_task = true;
  is_timeout_task_running = true;
  is_timeout_task_due = true;
  next_transaction_id = 255;
  pending = [];
}

no_transactions-IsService : IsService no_transactions
unfolding is_pending
no_transactions-IsService = record { pos = omega arith; fits = omega arith; fresh = refl }

abbrev one_started : TransactionService
one_started = (start_transaction 4 0x20 500 true 1000 no_transactions).1

-- The identifier 255 is given out, and 1 is the next one.
start_test : one_started.next_transaction_id ≡ 1
unfolding start_transaction next_free_id
start_test = refl

abbrev answer : CommandResponse
answer = record {
  source_device_id = 4;
  command_code = 0x20;
  transaction_id = 255;
  result_code = 0;
  payload = 9 ∷ [];
}

abbrev awaited : List PendingTransaction
awaited = new_transaction 4 0x20 500 true 1000 no_transactions ∷ []

abbrev one_answered :
    History no_transactions awaited
      ([] ++ (complete_transaction answer one_started).1)
      (complete_transaction answer one_started).0
one_answered =
    completes
      (starts begins 4 0x20 500 true 1000 7 (omega arith) (omega arith) (omega arith)
        (unfold is_pending in refl))
      answer

History-Balanced_example :
    Balanced awaited
      ([] ++ (complete_transaction answer one_started).1)
      (complete_transaction answer one_started).0
History-Balanced_example = History-Balanced no_transactions-IsService refl one_answered

-- A transaction that starts at 1000, after a round of the expiry loop read 999, expires in that round.
wrap_test : (expire_next 999 one_started).0.pending ≡ []
unfolding expire_next start_transaction
wrap_test = refl

answer_test : (complete_transaction answer one_started).0.pending ≡ []
unfolding complete_transaction start_transaction
answer_test = refl

abbrev uses : List Use
uses = revalidates 1 ∷ stores 9 true ∷ stores 4 false ∷ stores 9 false ∷ []

use_all-Refines_example :
    Refines 2
      (use_all 2 uses empty_cache)
      (give_all uses (record { generation = 0; answer = λ key. none }))
    × (find 6 (store 2 6 true (use_all 2 uses empty_cache)) ≡ some true)
use_all-Refines_example = use_all-Refines 2 uses 6 true (omega arith)

find_test : find 9 (use_all 2 uses empty_cache) ≡ some false
unfolding find use_all
find_test = refl

forgotten_test : find 4 (store 2 6 true (use_all 2 uses empty_cache)) ≡ none
unfolding find store use_all
forgotten_test = refl

abbrev unit_1 : NetworkDevice
unit_1 = record {
  device_id = 1;
  uid = 77;
  features = 0;
  status = online;
  last_heartbeat = 900;
  is_lowest_id_on_network = true;
  staggered_message_delay = 0;
}

-- A claim of 2 that has not expired, and one of 3 that has.
abbrev claims : List PendingIdClaim
claims =
    record { device_id = 2; uid = 5; claimed_at_ms = 9000 }
    ∷ record { device_id = 3; uid = 6; claimed_at_ms = 10 }
    ∷ replicate 6 free_claim

get_lowest_available_id-Free_example :
    let o = (get_lowest_available_id 10_000 0 (unit_1 ∷ []) claims).0 in
    FreeIf 10_000 (0 + 1) (unit_1 ∷ []) claims o × Lowest 10_000 (unit_1 ∷ []) claims 2 o
get_lowest_available_id-Free_example =
    get_lowest_available_id-Free 10_000 0 2 (unit_1 ∷ []) claims (omega arith) (omega arith)
      (omega arith)

available_test : (get_lowest_available_id 10_000 0 (unit_1 ∷ []) claims).0 ≡ some 3
unfolding get_lowest_available_id
available_test = refl

abbrev unit : NetworkService
unit = record {
  unit = record {
    device_id = 0;
    uid = 42;
    protocol_version = 0x10;
    features = 0;
    status = claiming;
    is_lowest_id_on_network = false;
    staggered_message_delay = 0;
  };
  has_bus = true;
  is_running = true;
  devices = unit_1 ∷ [];
  pending_id_claims = claims;
  discovery_attempt = 0;
  discovery_backoff_resets = 0;
  discovery_response_received = false;
  lower_uid_discovering = false;
  claiming_device_id = 0;
  id_claim_attempt = 0;
  id_claim_result = none;
  rediscovery_requested_at_ms = none;
  is_validation_task_running = false;
  discovery_task_delay = none;
  id_claim_task_delay = none;
  work = [];
  sent = [];
  notices = [];
}

-- The first attempt claims 3; it is rejected meanwhile, and the second one claims 4.
abbrev first_attempt : NetworkService
first_attempt = (run_id_claim_attempt 10_000 (begin_id_claim unit)).1

-- The unit 1 answers that the identifier 3 is taken.
abbrev rejection : List ℕ
rejection = id_claim_response ∷ 1 ∷ 3 ∷ 1 ∷ []

abbrev rejected : NetworkService
rejected = record first_attempt { id_claim_result = some 1 }

abbrev two_attempts : ClaimRun unit 2 (run_id_claim_attempt 10_050 rejected).1
two_attempts =
    attempts
      (receives
        (attempts claim_begins 10_000 50 first_attempt
          (unfold run_id_claim_attempt begin_id_claim in refl))
        10_020 rejection rejected
        (unfold process_frame run_id_claim_attempt begin_id_claim in refl))
      10_050 50 (run_id_claim_attempt 10_050 rejected).1
      (unfold run_id_claim_attempt begin_id_claim in refl)

claim_ends_example : 2 ≤ 2540
claim_ends_example = claim_ends two_attempts

claimed_test : (run_id_claim_attempt 10_050 rejected).1.claiming_device_id ≡ 4
unfolding run_id_claim_attempt begin_id_claim
claimed_test = refl

abbrev new_unit : NetworkService
new_unit = record unit { unit = record unit.unit { status = init } }

abbrev one_request :
    DiscoveryRun new_unit 1 (run_discovery_attempt (begin_initialization new_unit)).1
one_request =
    requests discovery_begins 100 (run_discovery_attempt (begin_initialization new_unit)).1
      (unfold run_discovery_attempt begin_initialization in refl)

-- A response that names the unassigned identifier 0, before the first attempt, brings the unit online
-- with that identifier.
unassigned_test :
    let t =
      on_id_claim_response
        (record {
          responding_device_id = 1;
          claiming_device_id = 0;
          claiming_device_uid = 0;
          result = 0;
        })
        (begin_id_claim unit) in
    let u = (run_id_claim_attempt 10_000 t).1 in (u.unit.device_id ≡ 0) × (u.unit.status ≡ online)
unfolding run_id_claim_attempt begin_id_claim on_id_claim_response
unassigned_test = (refl, refl)

-- The unit 3 with the feature mask 0x1234, and its heartbeat service before it is online.
abbrev sender : OwnDevice
sender = record unit.unit { device_id = 3; features = 0x1234; staggered_message_delay = 20 }

abbrev heartbeats : HeartbeatService
heartbeats = record {
  has_bus = true;
  is_running = true;
  has_task = true;
  is_task_running = false;
  task_delay = none;
  handler_id = some 1;
  sequence_number = 255;
  enabled = true;
  sent = [];
}

abbrev two_beats : List Beat
two_beats =
    record { unit = sender; health = 0; digest = 9 }
    ∷ record { unit = sender; health = 1; digest = 7 }
    ∷ []

run_all-Heard_example : Heard (5 ∷ []) 700 unit two_beats heartbeats (run_all two_beats heartbeats)
run_all-Heard_example =
    run_all-Heard two_beats heartbeats (5 ∷ []) 700 unit refl refl (omega arith)
      (omega arith, (omega arith, tt))

heartbeat_test :
    (process_periodic_heartbeat sender 0 9 heartbeats).sent
    ≡ (3 ∷ 0 ∷ 255 ∷ 0x34 ∷ 0x12 ∷ 0 ∷ 0 ∷ 9 ∷ []) ∷ []
unfolding process_periodic_heartbeat
heartbeat_test = refl

-- Heartbeats that are disabled for one run of the task and then enabled again stay silent, also when the
-- unit comes online once more.
silent_test :
    let t = on_device_status_changed online heartbeats in
    let u = process_periodic_heartbeat sender 0 9 (set_heartbeat_enabled false t) in
    let v = on_device_status_changed online (set_heartbeat_enabled true u) in
    (t.task_delay ≡ some 0) × (v.enabled ≡ true) × (v.task_delay ≡ none)
unfolding process_periodic_heartbeat on_device_status_changed set_heartbeat_enabled
silent_test = (refl, refl, refl)

-- The unit 4 with a handler for the command 0x20, which answers with its data.
abbrev callee : OwnDevice
callee = record unit.unit { device_id = 4; status = online }

abbrev commands : TransactionService → CommandService
commands transactions = record {
  has_bus = true;
  request_handler_id = some 1;
  response_handler_id = some 2;
  transactions = transactions;
  command_handlers =
      (0x20, λ id payload. some (record { result_code = 0; payload = payload })) ∷ [];
  service_command_handlers = [];
  sent = [];
  notified = [];
  ended = [];
}

abbrev echo : CommandResult
echo = record { result_code = 0; payload = 7 ∷ [] }

call-IsAnswered_example :
    let m = asked 255 4 0x20 (7 ∷ []) in
    let q = command_request_to_frame m in
    let p = command_response_to_frame (make_response callee m echo) in
    let s = commands no_transactions in
    let u = (send_command 1000 500 4 0x20 (7 ∷ []) true s).1 in
    (v w : CommandService) × (process_request_frame callee 0 q s ≡ some v)
    × (v.sent ≡ s.sent ++ response 0 p ∷ [])
    × (process_response_frame p u ≡ some w)
    × IsAnswered s u w q (begun 1000 500 4 0x20 true no_transactions) echo
call-IsAnswered_example =
    call-IsAnswered callee 0 1000 500 0x20 (7 ∷ []) true (commands no_transactions)
      (commands no_transactions) echo refl
      (record {
        bus = refl;
        status = refl;
        code_least = omega arith;
        code_most = omega arith;
        addressed = refl;
        handles = unfold call_handler in refl;
      })

-- A command without a handler, and one to all units.
abbrev unknown_command : CommandRequest
unknown_command = asked 9 4 0x21 []

process_request-Responds_example :
    Responds callee unknown_command
      (commands no_transactions)
      (process_request callee 0 unknown_command (commands no_transactions))
process_request-Responds_example =
    process_request-Responds callee 0 unknown_command (commands no_transactions)

refusal_test :
    (process_request callee 0 unknown_command (commands no_transactions)).sent
    ≡ response 0 (4 ∷ 0x21 ∷ 9 ∷ 3 ∷ []) ∷ []
unfolding process_request command_response_to_frame
refusal_test = refl
