-- ===== src/Cdmp/Status/Laws.antt =====
-- cdmp_status_machine.cpp: the transitions and the calls of a status change, and the handler table.
use rt_core.Prelude.{
  ℕ, ◌+◌, ◌≤◌, max, ◌≡◌, ◌≢◌, ◌-◌, sym, subst, Bool-cases, refl, ◌⊎◌, inl, inr, Bool, true, false,
  List, [], ◌∷◌, arith,
}
use mathlib.Core.List.{Memᴰ}
use rt_core.Cdmp.Status.{
  DeviceStatus, offline, init, claiming, online, version_mismatch, error, same_status,
  is_valid_transition, StatusMachine, Call, set_status, notify_status_change, max_id,
  register_status_change_handler, erase_callback, unregister_status_change_handler,
}

pub same_status_iff :
    (s t : DeviceStatus) → (same_status s t ≡ true → s ≡ t) × (s ≡ t → same_status s t ≡ true)
unfolding same_status
same_status_iff s t = (λ h. ground arith, λ h. ground arith)

-- The diagram of the protocol, as a relation.
infix 40 ◌⟶◌
pub data ◌⟶◌ : DeviceStatus → DeviceStatus → Type 0 where
  start : offline ⟶ init
  claim : init ⟶ claiming
  retry : claiming ⟶ init
  join : claiming ⟶ online
  reject : claiming ⟶ version_mismatch
  outdated : online ⟶ version_mismatch
  leave : online ⟶ offline
  give_up : init ⟶ offline
  forget : version_mismatch ⟶ offline
  restart : error ⟶ init
  clear : error ⟶ offline
  fail_offline : offline ⟶ error
  fail_init : init ⟶ error
  fail_claiming : claiming ⟶ error
  fail_online : online ⟶ error

ruleset diagram = (
  start, claim, retry, join, reject, outdated, leave, give_up, forget, restart, clear, fail_offline,
  fail_init, fail_claiming, fail_online,
)

-- A transition is valid exactly when the diagram has it.
pub is_valid_transition-⟶ : (s t : DeviceStatus) → is_valid_transition s t ≡ true → s ⟶ t
unfolding is_valid_transition
is_valid_transition-⟶ s t h = grind (arith, diagram)

pub ⟶-is_valid_transition : {s t : DeviceStatus} → s ⟶ t → is_valid_transition s t ≡ true
unfolding is_valid_transition
⟶-is_valid_transition start = refl
⟶-is_valid_transition claim = refl
⟶-is_valid_transition retry = refl
⟶-is_valid_transition join = refl
⟶-is_valid_transition reject = refl
⟶-is_valid_transition outdated = refl
⟶-is_valid_transition leave = refl
⟶-is_valid_transition give_up = refl
⟶-is_valid_transition forget = refl
⟶-is_valid_transition restart = refl
⟶-is_valid_transition clear = refl
⟶-is_valid_transition fail_offline = refl
⟶-is_valid_transition fail_init = refl
⟶-is_valid_transition fail_claiming = refl
⟶-is_valid_transition fail_online = refl

abbrev is_joining : DeviceStatus → Bool
is_joining claiming = true
is_joining online = true
is_joining _ = false

transition_joining :
    (s t : DeviceStatus)
    → is_joining s ≡ false
    → is_valid_transition s t ≡ true
    → (t ≡ claiming) ⊎ (is_joining t ≡ false)
unfolding is_valid_transition
transition_joining s t h e = ground arith

-- One call for each handler of the table, in its order, with both statuses.
pub data EachCalled {ℓ} {H : Type ℓ} (old new : DeviceStatus)
    : List (ℕ × H) → List (Call H) → Type ℓ where
  none_left : EachCalled old new [] []
  calls :
      {id : ℕ} {h : H} {cs : List (ℕ × H)} {made : List (Call H)}
      → EachCalled old new cs made
      → EachCalled old new
          ((id, h) ∷ cs)
          (record { handler = h; old_status = old; new_status = new } ∷ made)

module _ {ℓ} {H : Type ℓ} where
  notify_each :
      (m : StatusMachine H) (old new : DeviceStatus) (cs : List (ℕ × H))
      → EachCalled old new cs (notify_status_change (record m { callbacks = cs }) old new)
  unfolding notify_status_change
  notify_each m old new [] = none_left
  notify_each m old new (c ∷ cs) = calls (notify_each m old new cs)

  -- What a request leaves and calls, forced or not.
  pub Changed : StatusMachine H → DeviceStatus → Bool → StatusMachine H × List (Call H) → Type ℓ
  Changed m s force (m', made) =
      (s ≢ m.status)
      × ((force ≡ true) ⊎ (m.status ⟶ s))
      × (m' ≡ record m { status = s })
      × EachCalled m.status s m.callbacks made

  pub Ignored : StatusMachine H → DeviceStatus → Bool → StatusMachine H × List (Call H) → Type ℓ
  Ignored m s force r = ((s ≡ m.status) ⊎ ((force ≡ false) × (¬ (m.status ⟶ s)))) × (r ≡ (m, []))

  change-Changed :
      (m : StatusMachine H) (s : DeviceStatus) (force : Bool)
      → same_status s m.status ≡ false
      → (force ≡ true) ⊎ (m.status ⟶ s)
      → Changed m s force (record m { status = s }, notify_status_change m m.status s)
  unfolding Changed
  change-Changed m s force other way =
      (λ e. cc ((same_status_iff s m.status).1 e), way, refl, notify_each m m.status s m.callbacks)

  pub set_status_cases :
      (m : StatusMachine H) (s : DeviceStatus) (force : Bool)
      → Changed m s force (set_status m s force) ⊎ Ignored m s force (set_status m s force)
  unfolding set_status Ignored
  set_status_cases m s force = elim (Bool-cases (same_status s m.status)) [
    | inl same ↦ inr (inl ((same_status_iff s m.status).0 same), ground arith)
    | inr other ↦ elim (Bool-cases force) [
      | inl forced ↦ inl (
          let e : set_status m s force
              ≡ (record m { status = s }, notify_status_change m m.status s) =
            ground arith in
          subst (Changed m s force) (sym e) (change-Changed m s force other (inl forced)))
      | inr free ↦ elim (Bool-cases (is_valid_transition m.status s)) [
        | inl valid ↦ inl (
            let e : set_status m s force
                ≡ (record m { status = s }, notify_status_change m m.status s) =
              ground arith in
            subst (Changed m s force) (sym e)
              (change-Changed m s force other (inr (is_valid_transition-⟶ m.status s valid))))
        | inr none ↦ inr (inr (free, λ t. cc (⟶-is_valid_transition t)), ground arith)
      ]
    ]
  ]

  -- Unforced requests, one after the other.
  unfoldable pub request_all : StatusMachine H → List DeviceStatus → StatusMachine H
  request_all m [] = m
  request_all m (s ∷ rest) = request_all (set_status m s false).0 rest

  set_status_joining :
      (m : StatusMachine H) (s : DeviceStatus)
      → is_joining m.status ≡ false
      → (s ≡ claiming) ⊎ (is_joining (set_status m s false).0.status ≡ false)
  unfolding Changed Ignored
  set_status_joining m s h = elim (set_status_cases m s false) [
    | inl (_, inl forced, _, _) ↦ absurd (ground arith)
    | inl (_, inr t, e, _) ↦ rw e (transition_joining m.status s h (⟶-is_valid_transition t))
    | inr (_, e) ↦ rw e (inr h)
  ]

  joins_by_claiming :
      (m : StatusMachine H) (ss : List DeviceStatus)
      → is_joining m.status ≡ false
      → is_joining (request_all m ss).status ≡ true
      → Memᴰ claiming ss
  unfolding request_all
  joins_by_claiming m [] h k = cc
  joins_by_claiming m (s ∷ ss) h k = elim (set_status_joining m s h) [
    | inl e ↦ Memᴰ.head (sym e)
    | inr q ↦ Memᴰ.tail (joins_by_claiming (set_status m s false).0 ss q k)
  ]

  -- Without force, a unit that is neither claiming nor online comes online only through a request for
  -- CLAIMING.
  pub online_needs_claiming :
      (m : StatusMachine H) (ss : List DeviceStatus)
      → m.status ≢ claiming
      → m.status ≢ online
      → (request_all m ss).status ≡ online
      → Memᴰ claiming ss
  online_needs_claiming m ss a b e = joins_by_claiming m ss (ground arith) (ground arith)

  -- Every identifier of the table is at most `n`.
  abbrev pub AtMost : ℕ → List (ℕ × H) → Type 0
  AtMost n [] = Unit {0}
  AtMost n ((id, _) ∷ rest) = (id ≤ n) × AtMost n rest

  AtMost-mono : (m n : ℕ) (cs : List (ℕ × H)) → m ≤ n → AtMost m cs → AtMost n cs
  AtMost-mono m n [] h b = tt
  AtMost-mono m n (c ∷ cs) h b = (omega arith, AtMost-mono m n cs h b.1)

  max_id_bounds :
      (found : ℕ) (cs : List (ℕ × H)) → (found ≤ max_id found cs) × AtMost (max_id found cs) cs
  unfolding max_id
  max_id_bounds found [] = (omega arith, tt)
  max_id_bounds found ((id, h) ∷ cs) =
      let (a, b) = max_id_bounds (max found id) cs in (omega arith, (omega arith, b))

  erase_absent : (n : ℕ) (cs : List (ℕ × H)) → AtMost n cs → erase_callback (n + 1) cs ≡ cs
  unfolding erase_callback
  erase_absent n [] b = refl
  erase_absent n ((id, h) ∷ cs) b = ground (arith, erase_absent n cs b.1)

  -- A registered handler gets an identifier that no other has, and unregistering it gives the table
  -- back.
  pub unregister-register :
      (m : StatusMachine H) (h : H)
      → let (m', id) = register_status_change_handler m h in
        (AtMost (id - 1) m.callbacks) × (unregister_status_change_handler m' id ≡ m)
  unfolding register_status_change_handler unregister_status_change_handler
  unregister-register m h =
      let b = (max_id_bounds 0 m.callbacks).1 in
      (
        AtMost-mono (max_id 0 m.callbacks) _ m.callbacks (omega arith) b,
        ground (arith, erase_absent (max_id 0 m.callbacks) m.callbacks b),
      )
