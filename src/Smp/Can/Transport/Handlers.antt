-- ===== src/Smp/Can/Transport/Handlers.antt =====
-- smp_can_transport.cpp: the handler that the transport has at the bus.
use rt_core.Prelude.{
  ℕ, ◌≡◌, ◌||◌, ◌&&◌, ltb, refl, ap, sym, ◌∙◌, subst, ◌⊎◌, inl, inr, Bool, true, false, not, Option,
  none, some, List, [], ◌∷◌, ◌++◌, arith, ◌==◌, if◌then◌else◌, Bool-cases, Option-cases,
}
use rt_core.Prelude.Tables.{keep_if}
use rt_core.Smp.Can.IdLayout.{is_valid_address, make_layout, get_target_filter_id}
use rt_core.Smp.Can.Transport.{
  Handler, Transport, Call, register_handler, remove_handler, clear_smp_rx, unbind_locked,
  configure, register, bind,
}

-- The handlers of one Canbus instance, by their ID, with the identifier that each filters on.
abbrev pub Handlers : Type 0
Handlers = List (ℕ × ℕ)

unfoldable pub apply_call : ℕ → Call → Handlers → Handlers
unfolding keep_if
apply_call b (register_handler bus id filter) hs = if bus == b then (id, filter) ∷ hs else hs
apply_call b (remove_handler bus id) hs =
    if bus == b then keep_if (λ (h : ℕ × ℕ). not (h.0 == id)) hs else hs
apply_call b clear_smp_rx hs = hs

unfoldable pub apply_calls : ℕ → List Call → Handlers → Handlers
unfolding apply_call
apply_calls b [] hs = hs
apply_calls b (c ∷ cs) hs = apply_calls b cs (apply_call b c hs)

-- What the transport believes to have registered.
abbrev pub own_handlers : Transport → Handlers
own_handlers t = elim t.handler [
  | none ↦ []
  | some h ↦ (h.id, get_target_filter_id t.sender.layout t.sender.address) ∷ []
]

abbrev pub IsBound : ℕ → Transport → Option Handler → Type 0
IsBound b t none = t.sender.address ≡ 0
IsBound b t (some h) =
    (h.bus ≡ b) × (is_valid_address t.sender.address ≡ true) × (t.has_proxy ≡ true)

-- On the bus `b`: bound exactly with a valid address, and with one handler there, for that address.
pub record IsTransport (b : ℕ) (t : Transport) (hs : Handlers) : Type 0 where
  pub bound : IsBound b t t.handler
  pub known : hs ≡ own_handlers t

-- After an operation on the bus `b`, with the calls that it made.
abbrev After : ℕ → Handlers → Transport → List Call → Type 0
After b hs t calls = IsTransport b t (apply_calls b calls hs)

pub record Released (b : ℕ) (hs : Handlers) (t : Transport) (calls : List Call) : Type 0 where
  pub address : t.sender.address ≡ 0
  pub handler : t.handler ≡ none
  pub left : apply_calls b calls hs ≡ []

pub unbind_locked-Released :
    (b : ℕ) (t : Transport) (hs : Handlers)
    → IsTransport b t hs
    → Released b hs (unbind_locked (some b) t).0 (unbind_locked (some b) t).1
unfolding unbind_locked apply_calls
unbind_locked-Released b t hs v = elim (Option-cases t.handler) [
  | inl free ↦ record {
    address = ground (arith, v.bound);
    handler = ground arith;
    left = ground (arith, v.known);
  }
  | inr (h, has) ↦
      let at = subst (IsBound b t) has v.bound in
      record {
        address = ground arith;
        handler = ground arith;
        left = ground (arith, v.known, at.0, at.2);
      }
]

abbrev pub Keeps : ℕ → Handlers → Bool × Transport × List Call → Type 0
Keeps b hs (ok, u, calls) = IsTransport b u (apply_calls b calls hs)

pub free-Keeps :
    (b : ℕ) (hs : Handlers) (ok : Bool) (u : Transport) (calls : List Call)
    → Released b hs u calls
    → Keeps b hs (ok, u, calls)
free-Keeps b hs ok u calls r = record {
  bound = subst (IsBound b u) (sym r.handler) r.address;
  known =
      let none_own : own_handlers u ≡ [] = let h = r.handler in ground arith in
      r.left ∙ sym none_own;
}

-- Configure() with any settings, also ones that it refuses, keeps the account of the handlers.
pub configure-IsTransport :
    (b : ℕ) (has_proxy : Bool) (id_base share : ℕ) (t : Transport) (hs : Handlers)
    → IsTransport b t hs
    → let (ok, u, calls) = configure (some b) has_proxy id_base share t in
      IsTransport b u (apply_calls b calls hs)
unfolding configure apply_calls
configure-IsTransport b has_proxy base share t hs v =
    let r = unbind_locked-Released b t hs v in
    let u = (unbind_locked (some b) t).0 in
    let calls = (unbind_locked (some b) t).1 in
    elim (Bool-cases (share == 0 || ltb 100 share)) [
      | inl bad ↦
          let e : configure (some b) has_proxy base share t ≡ (false, t, []) = ground arith in
          subst (Keeps b hs) (sym e) v
      | inr good ↦ elim (Option-cases (make_layout base)) [
        | inl wrong ↦
            let e : configure (some b) has_proxy base share t
                ≡ (false, record u { has_proxy = has_proxy }, calls) =
              ground arith in
            subst (Keeps b hs) (sym e) (
              free-Keeps b hs false _ calls
                (record { address = r.address; handler = r.handler; left = r.left }))
        | inr (layout, right) ↦
            let w = record u {
              has_proxy = has_proxy;
              sender = record u.sender {
                layout = layout;
                bus_share_percent = share;
                pacer_frame_time_ns = 0;
              };
            } in
            let e : configure (some b) has_proxy base share t ≡ (true, w, calls) = ground arith in
            subst (Keeps b hs) (sym e) (
              free-Keeps b hs true w calls
                (record { address = r.address; handler = r.handler; left = r.left }))
      ]
    ]

apply_calls-append :
    (b : ℕ) (cs ds : List Call) (hs : Handlers)
    → apply_calls b (cs ++ ds) hs ≡ apply_calls b ds (apply_calls b cs hs)
unfolding apply_calls
apply_calls-append b [] ds hs = refl
apply_calls-append b (c ∷ cs) ds hs = apply_calls-append b cs ds (apply_call b c hs)

abbrev pub is_some : Option ℕ → Bool
is_some none = false
is_some (some id) = true

-- What a Bind() that says `ok` leaves of the transport `t`.
record Rebound (b address : ℕ) (hs : Handlers) (t : Transport) (ok : Bool)
    (r : Bool × Transport × List Call) : Type 0 where
  keeps : IsTransport b r.1 (apply_calls b r.2 hs)
  result : r.0 ≡ ok
  now_at : r.1.sender.address ≡ (if ok then address else 0)
  layout : r.1.sender.layout ≡ t.sender.layout

register-Rebound :
    (b address : ℕ) (registered : Option ℕ) (u : Transport) (calls : List Call) (hs : Handlers)
    → is_valid_address address ≡ true
    → u.has_proxy ≡ true
    → Released b hs u calls
    → let (ok, v, more) = register address registered b u in
      Rebound b address hs u (is_some registered) (ok, v, calls ++ more)
unfolding register apply_calls
register-Rebound b address none u calls hs a p r = record {
  keeps =
      subst (IsTransport b u) (sym (apply_calls-append b calls [] hs))
        (free-Keeps b hs false u calls r);
  result = refl;
  now_at = r.address;
  layout = refl;
}
register-Rebound b address (some id) u calls hs a p r = record {
  keeps = record {
    bound = (refl, a, p);
    known = apply_calls-append b calls _ hs ∙ (let z = r.left in ground arith);
  };
  result = refl;
  now_at = refl;
  layout = refl;
}

unbind_keeps :
    (bus : Option ℕ) (t : Transport)
    → let u = (unbind_locked bus t).0 in
      (u.has_proxy ≡ t.has_proxy) × (u.sender.layout ≡ t.sender.layout)
unfolding unbind_locked
unbind_keeps bus t = elim (Option-cases t.handler) [
  | inl free ↦ ground arith
  | inr (h, has) ↦ ground arith
]

bind-Rebound :
    (b address : ℕ) (registered : Option ℕ) (t : Transport) (hs : Handlers)
    → is_valid_address address ≡ true
    → t.sender.has_tx_task ≡ true
    → IsTransport b t hs
    → Rebound b address hs t
        ((t.sender.address == address) || (t.has_proxy && is_some registered))
        (bind address (some b) registered t)
unfolding bind apply_calls
bind-Rebound b address registered t hs a task v =
    let r = unbind_locked-Released b t hs v in
    let u = (unbind_locked (some b) t).0 in
    let calls = (unbind_locked (some b) t).1 in
    let (proxies, layouts) = unbind_keeps (some b) t in
    let ok = (t.sender.address == address) || (t.has_proxy && is_some registered) in
    elim (Bool-cases (t.sender.address == address)) [
      | inl same ↦
          let e : bind address (some b) registered t ≡ (true, t, []) = ground arith in
          let yes : ok ≡ true = ground arith in
          subst (Rebound b address hs t ok) (sym e)
            (record { keeps = v; result = sym yes; now_at = rw yes (ground arith); layout = refl })
      | inr other ↦ elim (Bool-cases u.has_proxy) [
        | inl proxy ↦
            let (told, w, more) = register address registered b u in
            let e : bind address (some b) registered t ≡ (told, w, calls ++ more) = ground arith in
            let k = register-Rebound b address registered u calls hs a proxy r in
            let same : is_some registered ≡ ok = ground arith in
            subst (Rebound b address hs t ok) (sym e) (record {
              keeps = k.keeps;
              result = k.result ∙ same;
              now_at = k.now_at ∙ ap (λ (z : Bool). if z then address else 0) same;
              layout = k.layout ∙ layouts;
            })
        | inr missing ↦
            let e : bind address (some b) registered t ≡ (false, u, calls) = ground arith in
            let no : ok ≡ false = ground arith in
            subst (Rebound b address hs t ok) (sym e) (record {
              keeps = free-Keeps b hs false u calls r;
              result = sym no;
              now_at = r.address ∙ rw no refl;
              layout = layouts;
            })
      ]
    ]

-- At a valid address there is one handler, for this address, and at address 0 there is none.
handlers_at :
    (b : ℕ) (t : Transport) (hs : Handlers)
    → IsTransport b t hs
    → (is_valid_address t.sender.address ≡ true
        → (id : ℕ) × (hs ≡ (id, get_target_filter_id t.sender.layout t.sender.address) ∷ []))
      × (t.sender.address ≡ 0 → hs ≡ [])
handlers_at b t hs v = elim (Option-cases t.handler) [
  | inl free ↦
      let at : t.sender.address ≡ 0 = subst (IsBound b t) free v.bound in
      (λ valid. absurd (unfold is_valid_address in (ground arith)), λ e. v.known ∙ (ground arith))
  | inr (h, has) ↦
      let at = subst (IsBound b t) has v.bound in
      let valid : is_valid_address t.sender.address ≡ true = at.1 in
      (
        λ e. (h.id, v.known ∙ (ground arith)),
        λ e. absurd (unfold is_valid_address in (ground arith)),
      )
]

-- What Bind() leaves, with the handlers that the bus has after its calls.
pub record Binding (b address : ℕ) (registered : Option ℕ) (t : Transport) (hs : Handlers)
    (r : Bool × Transport × List Call) : Type 0 where
  pub keeps : IsTransport b r.1 (apply_calls b r.2 hs)
  pub result : r.0 ≡ (t.sender.address == address) || (t.has_proxy && is_some registered)
  pub now :
      ((r.0 ≡ true)
        × (r.1.sender.address ≡ address)
        × ((id : ℕ) × (apply_calls b r.2 hs
              ≡ (id, get_target_filter_id t.sender.layout address) ∷ [])))
      ⊎ ((r.0 ≡ false) × (r.1.sender.address ≡ 0) × (apply_calls b r.2 hs ≡ []))

-- Bind() to a valid address after Initialize(), with any answer of the bus: it succeeds exactly when the
-- transport is at the address already, or has a bus that registers the handler. After a success the
-- transport is at the address and has one handler on the bus, which filters on this address; after a
-- failure it is at no address and has no handler there, also when it had one before.
pub bind-Binding :
    (b address : ℕ) (registered : Option ℕ) (t : Transport) (hs : Handlers)
    → is_valid_address address ≡ true
    → t.sender.has_tx_task ≡ true
    → IsTransport b t hs
    → Binding b address registered t hs (bind address (some b) registered t)
bind-Binding b address registered t hs a task v =
    let r = bind address (some b) registered t in
    let k = bind-Rebound b address registered t hs a task v in
    let (valid, free) = handlers_at b r.1 (apply_calls b r.2 hs) k.keeps in
    let place : r.1.sender.address ≡ (if r.0 then address else 0) =
      k.now_at ∙ ap (λ (z : Bool). if z then address else 0) (sym k.result) in
    record {
      keeps = k.keeps;
      result = k.result;
      now = elim (Bool-cases r.0) [
        | inl bound ↦
            let at = place ∙ ap (λ (z : Bool). if z then address else 0) bound in
            let (id, e) = valid (ap is_valid_address at ∙ a) in
            inl (
              bound,
              at,
              (
                id,
                e
                    ∙ ap (λ l. (id, get_target_filter_id l r.1.sender.address) ∷ []) k.layout
                    ∙ ap (λ n. (id, get_target_filter_id t.sender.layout n) ∷ []) at,
              ),
            )
        | inr failed ↦
            let at = place ∙ ap (λ (z : Bool). if z then address else 0) failed in
            inr (failed, at, free at)
      ];
    }
