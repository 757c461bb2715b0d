-- ===== src/Smp/Can/Transport/Lifetime.antt =====
-- smp_can_transport.cpp: Configure(), Bind() and Unbind() in any order on one Canbus instance.
use rt_core.Prelude.{
  ℕ, ◌≡◌, sym, subst, inl, inr, Bool, true, false, not, ◌||◌, Option, some, List, [], arith,
  Bool-cases,
}
use rt_core.Smp.Can.IdLayout.{is_valid_address}
use rt_core.Smp.Can.Transport.{Transport, Call, unbind_locked, configure, bind}
use rt_core.Smp.Can.Transport.Handlers.{
  Handlers, IsTransport, apply_calls, Keeps, unbind_locked-Released, free-Keeps,
  configure-IsTransport, bind-Binding,
}

-- The states that these operations reach, with the handlers of the bus.
pub data Lifetime (b : ℕ) (t : Transport) (hs : Handlers) : Transport → Handlers → Type 0 where
  begins : Lifetime b t hs t hs
  configures :
      {u : Transport} {gs : Handlers}
      → Lifetime b t hs u gs
      → (has_proxy : Bool) (id_base share : ℕ) (ok : Bool) (v : Transport) (calls : List Call)
      → configure (some b) has_proxy id_base share u ≡ (ok, v, calls)
      → Lifetime b t hs v (apply_calls b calls gs)
  binds :
      {u : Transport} {gs : Handlers}
      → Lifetime b t hs u gs
      → (address : ℕ) (registered : Option ℕ) (ok : Bool) (v : Transport) (calls : List Call)
      → bind address (some b) registered u ≡ (ok, v, calls)
      → Lifetime b t hs v (apply_calls b calls gs)
  unbinds :
      {u : Transport} {gs : Handlers}
      → Lifetime b t hs u gs
      → (v : Transport) (calls : List Call) → unbind_locked (some b) u ≡ (v, calls)
      → Lifetime b t hs v (apply_calls b calls gs)

bind-IsTransport :
    (b address : ℕ) (registered : Option ℕ) (t : Transport) (hs : Handlers)
    → IsTransport b t hs
    → let (ok, v, calls) = bind address (some b) registered t in
      IsTransport b v (apply_calls b calls hs)
unfolding bind apply_calls
bind-IsTransport b address registered t hs v =
    elim (Bool-cases (not (is_valid_address address) || not t.sender.has_tx_task)) [
      | inl refused ↦
          let e : bind address (some b) registered t ≡ (false, t, []) = ground arith in
          subst (Keeps b hs) (sym e) v
      | inr good ↦ (bind-Binding b address registered t hs (ground arith) (ground arith) v).keeps
    ]

-- Whatever is configured, bound and released, and whatever the bus answers: the transport has an address
-- exactly when it has a handler, the bus has that handler and no other, and it filters on the address.
pub Lifetime-IsTransport :
    {b : ℕ} {t : Transport} {hs : Handlers} {u : Transport} {gs : Handlers}
    → IsTransport b t hs
    → Lifetime b t hs u gs
    → IsTransport b u gs
Lifetime-IsTransport v begins = v
Lifetime-IsTransport {b} v (configures {u = u} {gs = gs} l has_proxy base share ok w calls e) =
    subst (Keeps b gs) e
      (configure-IsTransport b has_proxy base share u gs (Lifetime-IsTransport v l))
Lifetime-IsTransport {b} v (binds {u = u} {gs = gs} l address registered ok w calls e) =
    subst (Keeps b gs) e (bind-IsTransport b address registered u gs (Lifetime-IsTransport v l))
Lifetime-IsTransport {b} v (unbinds {u = u} {gs = gs} l w calls e) =
    subst (λ (r : Transport × List Call). IsTransport b r.0 (apply_calls b r.1 gs)) e
      (free-Keeps b gs true _ _ (unbind_locked-Released b u gs (Lifetime-IsTransport v l)))
