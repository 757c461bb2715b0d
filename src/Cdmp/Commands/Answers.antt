-- ===== src/Cdmp/Commands/Answers.antt =====
-- cdmp_command_service.cpp: what a unit sends back when a request comes in.
use rt_core.Prelude.{
  ℕ, ◌≡◌, refl, ap, ◌⊎◌, Bool, true, false, not, ◌&&◌, ◌||◌, Option, none, some, [], ◌∷◌, ◌++◌,
  arith, ◌==◌, ◌!=◌, if◌then◌else◌,
}
use rt_core.Cdmp.Status.{online, same_status, code}
use rt_core.Cdmp.Messages.Command.{
  CommandRequest, CommandResponse, command_response_to_frame, status_response, status_request,
}
use rt_core.Cdmp.Network.Service.{OwnDevice}
use rt_core.Cdmp.Transactions.{device_id_broadcast}
use rt_core.Cdmp.Commands.{
  CommandResult, CommandService, response, Notified, no_handler, threw, result,
  is_valid_service_command_code, is_valid_user_command_code, find_handler, call_handler,
  make_response, process_request, process_service_request, process_user_request,
  send_command_response, notify_command_handler, unsupported_command,
}

-- A response to the request `m`: from this unit, to its command and transaction, at once when the request
-- was for this unit alone, and otherwise after the unit's own delay.
pub record IsResponse (unit : OwnDevice) (m : CommandRequest) (delay : ℕ) (r : CommandResponse)
    : Type 0 where
  pub source : r.source_device_id ≡ unit.device_id
  pub command : r.command_code ≡ m.command_code
  pub transaction : r.transaction_id ≡ m.transaction_id
  pub sleeps :
      ((m.target_device_id ≡ unit.device_id) × (delay ≡ 0))
      ⊎ ((m.target_device_id ≡ device_id_broadcast) × (delay ≡ unit.staggered_message_delay))

-- Nothing was sent, or one response; the rest of what a request may touch is the handlers' calls.
pub data Responds (unit : OwnDevice) (m : CommandRequest) (s t : CommandService) : Type 0 where
  silent : t.sent ≡ s.sent → Responds unit m s t
  one_response :
      (delay : ℕ) (r : CommandResponse)
      → IsResponse unit m delay r
      → t.sent ≡ s.sent ++ response delay (command_response_to_frame r) ∷ []
      → Responds unit m s t

Responds-if :
    (unit : OwnDevice) (m : CommandRequest) (s x y : CommandService) (b : Bool)
    → (b ≡ true → Responds unit m s x)
    → (b ≡ false → Responds unit m s y)
    → Responds unit m s (if b then x else y)
Responds-if unit m s x y true f g = f refl
Responds-if unit m s x y false f g = g refl

-- The request is for this unit or for all.
abbrev IsFor : OwnDevice → CommandRequest → Type 0
IsFor unit m = (m.target_device_id ≡ unit.device_id) ⊎ (m.target_device_id ≡ device_id_broadcast)

notify-sent : (m : CommandRequest) (s : CommandService) → (notify_command_handler m s).sent ≡ s.sent
unfolding notify_command_handler
notify-sent m s = ground arith

send-Responds :
    (unit : OwnDevice) (m : CommandRequest) (r : CommandResponse) (s t : CommandService)
    → IsFor unit m
    → t.sent ≡ s.sent
    → r.source_device_id ≡ unit.device_id
    → r.command_code ≡ m.command_code
    → r.transaction_id ≡ m.transaction_id
    → Responds unit m s (send_command_response unit m.target_device_id r t)
unfolding send_command_response
send-Responds unit m r s t target same source command transaction =
    let delay = if m.target_device_id != unit.device_id then unit.staggered_message_delay else 0 in
    Responds-if unit m s t _ (not t.has_bus) (λ _. silent same)
      (λ bus.
        one_response delay r
          (record {
            source = source;
            command = command;
            transaction = transaction;
            sleeps = ground arith;
          })
          (ap (λ x. x ++ response delay (command_response_to_frame r) ∷ []) same))

service-Responds :
    (unit : OwnDevice) (health : ℕ) (m : CommandRequest) (s : CommandService)
    → IsFor unit m
    → Responds unit m s (process_service_request unit health m s)
unfolding process_service_request
service-Responds unit health m s target =
    let told = notify_command_handler m s in
    let status =
      status_response unit.device_id m.transaction_id 0 (code unit.status) unit.protocol_version
        health in
    Responds-if unit m s _ _ (m.command_code == status_request)
      (λ is_status.
        answers (call_handler m s) told (send_command_response unit m.target_device_id status told)
          (silent (notify-sent m s))
          (send-Responds unit m status s told target (notify-sent m s)
            (unfold status_response in refl) (unfold status_response in (ground arith))
            (unfold status_response in refl)))
      (λ other.
        Responds-if unit m s s _ (not (same_status unit.status online)) (λ _. silent refl)
          (λ _. handled (find_handler m.command_code s.service_command_handlers)))
  where
    answers :
        (n : Notified) (x y : CommandService)
        → Responds unit m s x
        → Responds unit m s y
        → Responds unit m s (elim n [ threw ↦ x | _ ↦ y ])
    answers threw x y f g = f
    answers no_handler x y f g = g
    answers (result r) x y f g = g

    replied :
        (o : Option CommandResult)
        → let t = record s { notified = s.notified ++ m ∷ [] } in
          Responds unit m s (elim o [
            | none ↦ t
            | some r ↦
                if m.target_device_id != unit.device_id
                then t
                else send_command_response unit m.target_device_id (make_response unit m r) t
          ])
    replied none = silent refl
    replied (some r) =
        let t = record s { notified = s.notified ++ m ∷ [] } in
        Responds-if unit m s t _ (m.target_device_id != unit.device_id) (λ _. silent refl)
          (λ _. send-Responds unit m (make_response unit m r) s t target refl refl refl refl)

    handled :
        (o : Option (CommandRequest → Option CommandResult))
        → Responds unit m s (elim o [
          | none ↦ notify_command_handler m s
          | some h ↦
              let t = record s { notified = s.notified ++ m ∷ [] } in
              elim (h m) [
                | none ↦ t
                | some r ↦
                    if m.target_device_id != unit.device_id
                    then t
                    else send_command_response unit m.target_device_id (make_response unit m r) t
              ]
        ])
    handled none = silent (notify-sent m s)
    handled (some h) = replied (h m)

user-Responds :
    (unit : OwnDevice) (m : CommandRequest) (s : CommandService)
    → IsFor unit m
    → Responds unit m s (process_user_request unit m s)
unfolding process_user_request
user-Responds unit m s target =
    Responds-if unit m s s _
      (not (same_status unit.status online) || not (is_valid_user_command_code m.command_code))
      (λ _. silent refl) (λ _. outcome (call_handler m s))
  where
    outcome :
        (n : Notified)
        → let t = notify_command_handler m s in
          Responds unit m s (elim n [
            | threw ↦ t
            | result r ↦ send_command_response unit m.target_device_id (make_response unit m r) t
            | no_handler ↦
                if m.target_device_id == unit.device_id
                then send_command_response unit m.target_device_id
                    (make_response unit m
                      (record { result_code = unsupported_command; payload = [] }))
                    t
                else t
          ])
    outcome threw = silent (notify-sent m s)
    outcome (result r) =
        send-Responds unit m (make_response unit m r) s (notify_command_handler m s) target
          (notify-sent m s) refl refl refl
    outcome no_handler =
        let t = notify_command_handler m s in
        let refusal =
          make_response unit m (record { result_code = unsupported_command; payload = [] }) in
        Responds-if unit m s (send_command_response unit m.target_device_id refusal t) t
          (m.target_device_id == unit.device_id)
          (λ _. send-Responds unit m refusal s t target (notify-sent m s) refl refl refl)
          (λ _. silent (notify-sent m s))

-- Whatever request comes in, whatever the unit's status and whatever its handlers answer or throw: at most
-- one response is sent. It is sent only to a request for this unit or for all, names this unit and the
-- request's command and transaction, and goes at once, or after the unit's own delay when the request was
-- for all.
pub process_request-Responds :
    (unit : OwnDevice) (health : ℕ) (m : CommandRequest) (s : CommandService)
    → Responds unit m s (process_request unit health m s)
unfolding process_request
process_request-Responds unit health m s =
    Responds-if unit m s s _
      (m.target_device_id != unit.device_id && m.target_device_id != device_id_broadcast)
      (λ _. silent refl)
      (λ near.
        let target : IsFor unit m = ground arith in
        Responds-if unit m s (process_service_request unit health m s)
          (process_user_request unit m s) (is_valid_service_command_code m.command_code)
          (λ _. service-Responds unit health m s target) (λ _. user-Responds unit m s target))
