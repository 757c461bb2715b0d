-- ===== src/Cdmp/Commands.antt =====
-- subsys/cdmp/services/cdmp_command_service.h and .cpp: commands to other units and their handlers. A handler
-- is a function here: what it answers depends on its arguments.
pub mod Answers
pub mod Calls
use rt_core.Prelude.{
  ℕ, Bool, true, false, not, ◌&&◌, ◌||◌, Option, none, some, List, [], ◌∷◌, ◌++◌, leb, ◌==◌, ◌!=◌,
  if◌then◌else◌,
}
use rt_core.Prelude.Tables.{keep_if}
use rt_core.Cdmp.Status.{
  DeviceStatus, offline, init, claiming, online, version_mismatch, error, code, same_status,
}
use rt_core.Cdmp.Messages.Codec.{Decoded, message, invalid, out_of_bounds}
use rt_core.Cdmp.Messages.Command.{
  CommandRequest, CommandResponse, command_request_to_frame, command_request_from_frame,
  command_response_to_frame, command_response_from_frame, status_response, status_request,
}
use rt_core.Cdmp.Network.Service.{OwnDevice}
use rt_core.Cdmp.Transactions.{
  TransactionService, Ended, device_id_broadcast, start_transaction, complete_transaction, start,
  stop,
}

pub record CommandResult : Type 0 where
  pub result_code : ℕ
  pub payload : List ℕ

-- `none` is an exception of the handler.
abbrev pub CommandHandler : Type 0
CommandHandler = ℕ → List ℕ → Option CommandResult

-- `none` is no answer, or an exception.
abbrev pub ServiceCommandHandler : Type 0
ServiceCommandHandler = CommandRequest → Option CommandResult

-- A frame that is given to the bus; a response is sent after a sleep of some milliseconds.
pub data Sent : Type 0 where
  request : List ℕ → Sent
  response : ℕ → List ℕ → Sent

-- `notified` are the requests that handlers were called with, `ended` the transactions that came to an end.
-- A map of handlers is a list with one entry for each code.
pub record CommandService : Type 0 where
  pub has_bus : Bool
  pub request_handler_id : Option ℕ
  pub response_handler_id : Option ℕ
  pub transactions : TransactionService
  pub command_handlers : List (ℕ × CommandHandler)
  pub service_command_handlers : List (ℕ × ServiceCommandHandler)
  pub sent : List Sent
  pub notified : List CommandRequest
  pub ended : List Ended

abbrev pub reset_device : ℕ
reset_device = 0x11

abbrev pub state_sync_request : ℕ
state_sync_request = 0x12

abbrev pub unsupported_command : ℕ
unsupported_command = 0x03

abbrev pub user_command_code_min : ℕ
user_command_code_min = 0x20

abbrev pub user_command_code_max : ℕ
user_command_code_max = 0xFF

unfoldable pub is_valid_service_command_code : ℕ → Bool
is_valid_service_command_code c =
    c == status_request || c == reset_device || c == state_sync_request

unfoldable pub is_valid_user_command_code : ℕ → Bool
is_valid_user_command_code c = leb user_command_code_min c && leb c user_command_code_max

unfoldable pub find_handler : {H : Type 0} → ℕ → List (ℕ × H) → Option H
find_handler c [] = none
find_handler c ((key, h) ∷ rest) =
    let later = find_handler c rest in if key == c then some h else later

unfoldable pub erase_handler : {H : Type 0} → ℕ → List (ℕ × H) → List (ℕ × H)
unfolding keep_if
erase_handler c handlers = keep_if (λ e. not (e.0 == c)) handlers

-- RegisterCanHandlers(), with the handler IDs that the bus gives; `none` is a refusal.
unfoldable pub register_can_handlers : Option ℕ → Option ℕ → CommandService → CommandService
register_can_handlers request_id response_id s =
    if not s.has_bus
    then s
    else record s { request_handler_id = request_id; response_handler_id = response_id }

unfoldable pub unregister_can_handlers : CommandService → CommandService
unregister_can_handlers s =
    if not s.has_bus then s else record s { request_handler_id = none; response_handler_id = none }

unfoldable pub on_device_status_changed : DeviceStatus → CommandService → CommandService
unfolding same_status start stop
on_device_status_changed new s =
    let (transactions, cancelled) = stop s.transactions in
    if same_status new online
    then record s { transactions = start s.transactions }
    else record s { transactions = transactions; ended = s.ended ++ cancelled }

-- What NotifyCommandHandler() comes to; the handler is called with the transaction and the data.
pub data Notified : Type 0 where
  no_handler threw : Notified
  result : CommandResult → Notified

unfoldable pub call_handler : CommandRequest → CommandService → Notified
unfolding find_handler
call_handler m s = elim (find_handler m.command_code s.command_handlers) [
  | none ↦ no_handler
  | some h ↦ elim (h m.transaction_id m.payload) [ none ↦ threw | some r ↦ result r ]
]

unfoldable pub notify_command_handler : CommandRequest → CommandService → CommandService
unfolding find_handler
notify_command_handler m s = elim (find_handler m.command_code s.command_handlers) [
  | none ↦ s
  | some h ↦ record s { notified = s.notified ++ m ∷ [] }
]

unfoldable pub send_command_response :
    OwnDevice → ℕ → CommandResponse → CommandService → CommandService
send_command_response unit target m s =
    let delay = if target != unit.device_id then unit.staggered_message_delay else 0 in
    if not s.has_bus
    then s
    else record s { sent = s.sent ++ response delay (command_response_to_frame m) ∷ [] }

unfoldable pub make_response : OwnDevice → CommandRequest → CommandResult → CommandResponse
make_response unit m r = record {
  source_device_id = unit.device_id;
  command_code = m.command_code;
  transaction_id = m.transaction_id;
  result_code = r.result_code;
  payload = r.payload;
}

-- `health` is the unit's health, which `OwnDevice` does not keep.
unfoldable pub process_service_request :
    OwnDevice → ℕ → CommandRequest → CommandService → CommandService
unfolding same_status status_response code notify_command_handler call_handler send_command_response
    find_handler make_response
process_service_request unit health m s =
    if m.command_code == status_request
    then elim (call_handler m s) [
      | threw ↦ notify_command_handler m s
      | _ ↦
          send_command_response unit m.target_device_id
            (status_response unit.device_id m.transaction_id 0 (code unit.status)
              unit.protocol_version health)
            (notify_command_handler m s)
    ]
    else if not (same_status unit.status online)
    then s
    else elim (find_handler m.command_code s.service_command_handlers) [
      | none ↦ notify_command_handler m s
      | some h ↦
          let t = record s { notified = s.notified ++ m ∷ [] } in
          elim (h m) [
            | none ↦ t
            | some r ↦
                if m.target_device_id != unit.device_id
                then t
                else send_command_response unit m.target_device_id (make_response unit m r) t
          ]
    ]

unfoldable pub process_user_request : OwnDevice → CommandRequest → CommandService → CommandService
unfolding same_status is_valid_user_command_code notify_command_handler call_handler
    send_command_response make_response
process_user_request unit m s =
    let t = notify_command_handler m s in
    if not (same_status unit.status online) || not (is_valid_user_command_code m.command_code)
    then s
    else elim (call_handler m s) [
      | threw ↦ t
      | result r ↦ send_command_response unit m.target_device_id (make_response unit m r) t
      | no_handler ↦
          if m.target_device_id == unit.device_id
          then send_command_response unit m.target_device_id
              (make_response unit m (record { result_code = unsupported_command; payload = [] })) t
          else t
    ]

unfoldable pub process_request : OwnDevice → ℕ → CommandRequest → CommandService → CommandService
unfolding is_valid_service_command_code process_service_request process_user_request
process_request unit health m s =
    if m.target_device_id != unit.device_id && m.target_device_id != device_id_broadcast
    then s
    else if is_valid_service_command_code m.command_code
    then process_service_request unit health m s
    else process_user_request unit m s

-- `none` is a read past the end of the frame.
unfoldable pub process_request_frame :
    OwnDevice → ℕ → List ℕ → CommandService → Option CommandService
unfolding command_request_from_frame process_request
process_request_frame unit health frame s = elim (command_request_from_frame frame) [
  | message m ↦ some (process_request unit health m s)
  | invalid ↦ some s
  | out_of_bounds ↦ none
]

unfoldable pub process_response_frame : List ℕ → CommandService → Option CommandService
unfolding command_response_from_frame complete_transaction
process_response_frame frame s = elim (command_response_from_frame frame) [
  | message m ↦
      let (transactions, ended) = complete_transaction m s.transactions in
      some (record s { transactions = transactions; ended = s.ended ++ ended })
  | invalid ↦ some s
  | out_of_bounds ↦ none
]

-- `none` is the exception on an invalid code.
unfoldable pub register_command_handler :
    ℕ → CommandHandler → CommandService → Option CommandService
unfolding erase_handler
register_command_handler c h s =
    if c == 0
    then none
    else some (record s { command_handlers = (c, h) ∷ erase_handler c s.command_handlers })

unfoldable pub register_user_command_handler :
    ℕ → CommandHandler → CommandService → Option CommandService
unfolding is_valid_user_command_code register_command_handler
register_user_command_handler c h s =
    if not (is_valid_user_command_code c) then none else register_command_handler c h s

unfoldable pub register_service_command_handler :
    ℕ → ServiceCommandHandler → CommandService → Option CommandService
unfolding is_valid_service_command_code erase_handler
register_service_command_handler c h s =
    if not (is_valid_service_command_code c) || c == status_request
    then none
    else some (record s {
      service_command_handlers = (c, h) ∷ erase_handler c s.service_command_handlers;
    })

unfoldable pub unregister_command_handler : ℕ → CommandService → CommandService
unfolding erase_handler
unregister_command_handler c s = record s { command_handlers = erase_handler c s.command_handlers }

unfoldable pub unregister_service_command_handler : ℕ → CommandService → CommandService
unfolding erase_handler
unregister_service_command_handler c s = record s {
  service_command_handlers = erase_handler c s.service_command_handlers;
}

-- SendCommand() at the time `now`; `timeout_ms` is the build's. 0 is a command that was not sent.
unfoldable pub send_command : ℕ → ℕ → ℕ → ℕ → List ℕ → Bool → CommandService → ℕ × CommandService
unfolding start_transaction command_request_to_frame
send_command now timeout_ms target c payload has_callback s =
    let (id, transactions) =
      start_transaction target c timeout_ms has_callback now s.transactions in
    let m : CommandRequest = record {
      target_device_id = target;
      command_code = c;
      transaction_id = id;
      payload = payload;
    } in
    if not s.has_bus || c == 0 then (0, s) else (
      id,
      record s {
        transactions = transactions;
        sent = s.sent ++ request (command_request_to_frame m) ∷ [];
      },
    )
