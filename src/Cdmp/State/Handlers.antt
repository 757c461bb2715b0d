-- ===== src/Cdmp/State/Handlers.antt =====
-- cdmp_state_service.cpp: the handlers of state types. A handler is a value of an abstract type; a call of
-- it is recorded with its type.
use rt_core.Prelude.{ℕ, ◌+◌, Bool, true, false, ◌||◌, List, [], ◌∷◌, ◌++◌, map, ◌==◌, ◌!=◌}
use rt_core.Prelude.Tables.{keep_if, any_of}
use rt_core.Cdmp.State.Remote.{RemoteTable}

-- A handler of a state type, and whether its first call is still to come.
pub record StateHandler {ℓ} (H : Type ℓ) : Type ℓ where
  pub handler_id : ℕ
  pub state_type : ℕ
  pub handler : H
  pub is_first_call_pending : Bool

pub record Handlers {ℓ} (H : Type ℓ) : Type ℓ where
  pub next_handler_id : ℕ
  pub entries : List (StateHandler H)

module _ {ℓ} {H : Type ℓ} where
  unfoldable pub register_state_handler : ℕ → H → Handlers H → Handlers H × ℕ
  register_state_handler state_type handler h = (
    record h {
      next_handler_id = h.next_handler_id + 1;
      entries =
          h.entries
          ++ record {
            handler_id = h.next_handler_id;
            state_type = state_type;
            handler = handler;
            is_first_call_pending = true;
          }
            ∷ [];
    },
    h.next_handler_id,
  )

  unfoldable pub unregister_state_handler : ℕ → Handlers H → Handlers H
  unfolding keep_if
  unregister_state_handler handler_id h = record h {
    entries = keep_if (λ e. e.handler_id != handler_id) h.entries;
  }

  -- The calls made, each a handler with its type; the changed types are taken.
  unfoldable pub notify_state_handlers :
      RemoteTable → Handlers H → RemoteTable × Handlers H × List (H × ℕ)
  unfolding keep_if any_of
  notify_state_handlers t h =
      let is_due : StateHandler H → Bool =
        λ e. e.is_first_call_pending || any_of (λ c. c == e.state_type) t.changed_types in
      (
        record t { changed_types = []; is_notify_due = false },
        record h {
          entries =
              map (λ (e : StateHandler H). record e { is_first_call_pending = false }) h.entries;
        },
        map (λ e. (e.handler, e.state_type)) (keep_if is_due h.entries),
      )
