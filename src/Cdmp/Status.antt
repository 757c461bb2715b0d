-- ===== src/Cdmp/Status.antt =====
-- subsys/cdmp/utilities/cdmp_status_machine.h and .cpp: the status of a unit and the handlers that a
-- change of it calls. A handler is a value of an abstract type; a call of it is recorded.
pub mod Laws
use rt_core.Prelude.{
  ℕ, zero, suc, ◌+◌, max, ◌≡◌, Bool, true, false, not, ◌&&◌, ◌||◌, List, [], ◌∷◌, map, ◌==◌,
  if◌then◌else◌,
}

pub data DeviceStatus : Type 0 where
  offline init claiming online version_mismatch error : DeviceStatus

-- Equality of the enumeration's values.
unfoldable pub code : DeviceStatus → ℕ
code offline = 0
code init = 1
code claiming = 2
code online = 3
code version_mismatch = 4
code error = 5

unfoldable pub same_status : DeviceStatus → DeviceStatus → Bool
unfolding code
same_status s t = code s == code t

unfoldable pub is_valid_transition : DeviceStatus → DeviceStatus → Bool
unfolding same_status
is_valid_transition offline to = same_status to init || same_status to error
is_valid_transition init to =
    same_status to claiming || (same_status to offline || same_status to error)
is_valid_transition claiming to =
    same_status to init
    || (same_status to online || (same_status to version_mismatch || same_status to error))
is_valid_transition online to =
    same_status to version_mismatch || (same_status to offline || same_status to error)
is_valid_transition version_mismatch to = same_status to offline
is_valid_transition error to = same_status to init || same_status to offline

pub record StatusMachine {ℓ} (H : Type ℓ) : Type ℓ where
  pub status : DeviceStatus
  pub callbacks : List (ℕ × H)

-- One call of a handler: the handler, the old status and the new one.
pub record Call {ℓ} (H : Type ℓ) : Type ℓ where
  pub handler : H
  pub old_status : DeviceStatus
  pub new_status : DeviceStatus

module _ {ℓ} {H : Type ℓ} where
  unfoldable pub make_status_machine : DeviceStatus → StatusMachine H
  make_status_machine initial_status = record { status = initial_status; callbacks = [] }

  unfoldable pub can_transition_to : StatusMachine H → DeviceStatus → Bool
  can_transition_to m new_status = is_valid_transition m.status new_status

  unfoldable pub notify_status_change :
      StatusMachine H → DeviceStatus → DeviceStatus → List (Call H)
  notify_status_change m old_status new_status =
      map (λ entry. record { handler = entry.1; old_status = old_status; new_status = new_status })
        m.callbacks

  unfoldable pub set_status :
      StatusMachine H → DeviceStatus → Bool → StatusMachine H × List (Call H)
  unfolding can_transition_to notify_status_change
  set_status m new_status force =
      if same_status new_status m.status
      then (m, [])
      else if not force && not (can_transition_to m new_status)
      then (m, [])
      else (record m { status = new_status }, notify_status_change m m.status new_status)

  unfoldable pub max_id : ℕ → List (ℕ × H) → ℕ
  max_id found [] = found
  max_id found ((id, _) ∷ rest) = max_id (max found id) rest

  unfoldable pub register_status_change_handler : StatusMachine H → H → StatusMachine H × ℕ
  unfolding max_id
  register_status_change_handler m callback =
      let new_id = max_id 0 m.callbacks + 1 in
      (record m { callbacks = (new_id, callback) ∷ m.callbacks }, new_id)

  unfoldable pub erase_callback : ℕ → List (ℕ × H) → List (ℕ × H)
  erase_callback id [] = []
  erase_callback id ((key, h) ∷ rest) =
      if key == id then erase_callback id rest else (key, h) ∷ erase_callback id rest

  unfoldable pub unregister_status_change_handler : StatusMachine H → ℕ → StatusMachine H
  unfolding erase_callback
  unregister_status_change_handler m callback_id = record m {
    callbacks = erase_callback callback_id m.callbacks;
  }

  unfoldable pub is_online : StatusMachine H → Bool
  is_online m = same_status m.status online

  unfoldable pub is_operational : StatusMachine H → Bool
  is_operational m = same_status m.status online || same_status m.status claiming
