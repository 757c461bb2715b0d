-- ===== src/Smp/Can/Pacer/Rate.antt =====
-- smp_can_pacer.cpp: the share of the bus that the pacer grants, and the wait that it announces.
use native.Mathlib.Nat.{mul-le-mul_right, lt-div-mul-add, div-mul-le_self}
use rt_core.Prelude.{
  ℕ, suc, ◌+◌, ◌-◌, ◌*◌, ◌/◌, ◌≤◌, ◌<◌, ◌≡◌, refl, ap, subst, true, false, some, min, max, arith,
  dec_lt,
}
use rt_core.Smp.Can.Pacer.{Pacer, make_pacer, reset, update, can_send, on_sent, get_wait_us}

-- What the constructor and every operation keep.
pub record IsPacer (p : Pacer) : Type 0 where
  pub cost_pos : 0 < p.frame_cost
  pub rate_pos : 0 < p.rate
  pub holds_frame : p.frame_cost ≤ p.capacity
  pub credit_capped : p.credit ≤ p.capacity

pub make_pacer-IsPacer :
    (time share burst : ℕ) {p : Pacer} → make_pacer time share burst ≡ some p → IsPacer p
unfolding make_pacer
make_pacer-IsPacer time share burst h =
    ground (arith, mul-le-mul_right {m = 1} {n = burst} (time * 100))

mul_back : (a b r : ℕ) → b ≤ a → (a - b) * r + b * r ≡ a * r
mul_back a b r h = let e : a ≡ a - b + b = omega arith in omega (arith, ap (λ (t : ℕ). t * r) e)

capped-le : (a b r : ℕ) → min a b * r ≤ a * r
capped-le a b r = mul-le-mul_right r (omega arith)

-- An update earns at most the rate for each microsecond.
update-credit :
    (p : Pacer) (now : ℕ)
    → (update p now).credit + p.last_update_us * p.rate
      ≤ p.credit + (update p now).last_update_us * p.rate
unfolding update
update-credit p now = ground (
  arith,
  mul_back now p.last_update_us p.rate,
  capped-le (now - p.last_update_us) (p.capacity / p.rate + 1) p.rate,
)

update_keeps : (p : Pacer) (now : ℕ) → IsPacer p → IsPacer (update p now)
unfolding update
update_keeps p now v = ground arith

-- Updates and sends in any order, each send allowed by `can_send`; the number counts the sends.
pub data Trace (p : Pacer) : ℕ → Pacer → Type 0 where
  start : Trace p 0 p
  updated : {n : ℕ} {q : Pacer} → Trace p n q → (now : ℕ) → Trace p n (update q now)
  sent : {n : ℕ} {q : Pacer} → Trace p n q → can_send q ≡ true → Trace p (suc n) (on_sent q)

pub record Kept (p q : Pacer) : Type 0 where
  pub valid : IsPacer q
  pub same_rate : q.rate ≡ p.rate
  pub same_cost : q.frame_cost ≡ p.frame_cost
  pub same_capacity : q.capacity ≡ p.capacity

Trace-Kept : {p q : Pacer} {n : ℕ} → IsPacer p → Trace p n q → Kept p q
unfolding update on_sent
Trace-Kept v start = record { valid = v; same_rate = refl; same_cost = refl; same_capacity = refl }
Trace-Kept v (updated {q = q} t now) = let ih = Trace-Kept v t in ground arith
Trace-Kept v (sent {q = q} t e) = let ih = Trace-Kept v t in ground arith

-- The account of a trace: the bus time of the frames sent, with the credit left, is at most the first
-- credit with what the elapsed time earned.
Trace-account :
    {p q : Pacer} {n : ℕ}
    → IsPacer p
    → Trace p n q
    → n * p.frame_cost + q.credit + p.last_update_us * p.rate ≤ p.credit + q.last_update_us * p.rate
unfolding can_send on_sent
Trace-account v start = omega arith
Trace-account {p} v (updated {n = n} {q = q} t now) =
    let k = Trace-Kept v t in
    let step : (update q now).credit + q.last_update_us * p.rate
        ≤ q.credit + (update q now).last_update_us * p.rate =
      subst
        (λ r.
          (update q now).credit + q.last_update_us * r
          ≤ q.credit + (update q now).last_update_us * r)
        k.same_rate (update-credit q now) in
    omega (arith, Trace-account v t)
Trace-account {p} v (sent {n = n} {q = q} t e) =
    let k = Trace-Kept v t in ground (arith, Trace-account v t)

-- From a reset on, whatever the order of updates and sends: the frames sent, at their cost, never
-- exceed the bucket and the share of the time that has passed.
pub bus_share :
    {p q : Pacer} {n : ℕ} (now : ℕ)
    → IsPacer p
    → Trace (reset p now) n q
    → n * p.frame_cost + now * p.rate ≤ p.capacity + q.last_update_us * p.rate
unfolding reset
bus_share {p} now v t = omega (
  arith,
  Trace-account {p = reset p now}
      (record {
        cost_pos = v.cost_pos;
        rate_pos = v.rate_pos;
        holds_frame = v.holds_frame;
        credit_capped = omega arith;
      })
      t,
)

abbrev pub needed : Pacer → ℕ → ℕ
needed p frames = min p.capacity (max frames 1 * p.frame_cost)

-- Rounding up: `x` units at `r` a step take this many steps and no fewer.
ceil_enough : (x r : ℕ) → 0 < r → x ≤ (x + r - 1) / r * r
ceil_enough x r h = omega (arith, lt-div-mul-add {a = x + r - 1} {b = r} h)

ceil_least : (x r w : ℕ) → 0 < r → w < (x + r - 1) / r → 0 < x → w * r < x
ceil_least x r w h l pos =
    omega
      (arith, div-mul-le_self (x + r - 1) r, mul-le-mul_right {m = suc w} {n = (x + r - 1) / r} r l)

earns :
    (p : Pacer) (w x : ℕ)
    → IsPacer p
    → p.credit + w * p.rate ≤ x
    → (update p (p.last_update_us + w)).credit ≤ x
unfolding update
earns p w x v h = ground (arith, capped-le w (p.capacity / p.rate + 1) p.rate)

full : (p : Pacer) → IsPacer p → p.capacity ≤ (p.capacity / p.rate + 1) * p.rate
full p v = omega (arith, lt-div-mul-add {a = p.capacity} {b = p.rate} v.rate_pos)

le-min-mul : (x a b r : ℕ) → x ≤ a * r → x ≤ b * r → x ≤ min a b * r
le-min-mul x a b r h k = elim (dec_lt a b) [
  | yes l ↦ let e : min a b ≡ a = omega arith in rw e h
  | no l ↦ let e : min a b ≡ b = omega arith in rw e k
]

earned :
    (p : Pacer) (w x : ℕ)
    → IsPacer p
    → x ≤ p.capacity
    → x ≤ p.credit + w * p.rate
    → x ≤ (update p (p.last_update_us + w)).credit
unfolding update
earned p w x v c h = ground (
  arith,
  le-min-mul (x - p.credit) w (p.capacity / p.rate + 1) p.rate (omega arith)
      (omega (arith, full p v)),
)

sends :
    (p : Pacer) (t : ℕ)
    → IsPacer p
    → p.frame_cost ≤ (update p t).credit
    → can_send (update p t) ≡ true
unfolding can_send update
sends p t v h = ground arith

refuses :
    (p : Pacer) (t : ℕ)
    → IsPacer p
    → (update p t).credit < p.frame_cost
    → can_send (update p t) ≡ false
unfolding can_send update
refuses p t v h = ground arith

-- After the announced wait the bucket holds what the frames need, up to a full bucket, and a frame may
-- be sent.
pub get_wait_us_enough :
    (p : Pacer) (frames : ℕ)
    → IsPacer p
    → (needed p frames ≤ (update p (p.last_update_us + get_wait_us p frames)).credit)
      × (can_send (update p (p.last_update_us + get_wait_us p frames)) ≡ true)
unfolding get_wait_us
get_wait_us_enough p frames v =
    let w = get_wait_us p frames in
    let e = earned p w (needed p frames) v (omega arith) enough in
    let cost = mul-le-mul_right {m = 1} {n = max frames 1} p.frame_cost (omega arith) in
    (e, send (p.last_update_us + w) (omega arith))
  where
    enough : needed p frames ≤ p.credit + get_wait_us p frames * p.rate
    enough = ground (arith, ceil_enough (needed p frames - p.credit) p.rate v.rate_pos)

    send : (t : ℕ) → p.frame_cost ≤ (update p t).credit → can_send (update p t) ≡ true
    send t h = sends p t v h

-- No wait shorter than the one announced for one frame lets a frame through.
pub get_wait_us_least :
    (p : Pacer) (w : ℕ)
    → IsPacer p
    → w < get_wait_us p 1
    → can_send (update p (p.last_update_us + w)) ≡ false
unfolding get_wait_us can_send
get_wait_us_least p w v h =
    refuses p (p.last_update_us + w) v
      (omega (arith, earns p w (p.frame_cost - 1) v (ground (arith, short))))
  where
    short : p.credit < p.frame_cost → w * p.rate < p.frame_cost - p.credit
    short q = ground (arith, ceil_least (p.frame_cost - p.credit) p.rate w v.rate_pos)
