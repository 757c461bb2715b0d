-- ===== src/Cdmp/Transactions/Fresh.antt =====
-- cdmp_transaction_service.cpp: GetNextTransactionId() gives out no identifier that is pending.
use rt_core.Prelude.{
  ℕ, zero, suc, ◌+◌, ◌-◌, ◌%◌, ◌<◌, ◌≡◌, ◌≢◌, refl, subst, sym, ap, inl, inr, Bool, true, false,
  not, List, [], ◌∷◌, arith, dec_lt, ◌==◌, Bool-cases, if◌then◌else◌, ◌&&◌, ◌!=◌,
}
use rt_core.Prelude.Tables.{keep_if}
use rt_core.Cdmp.Transactions.{
  PendingTransaction, TransactionService, has_id, is_pending, following_id, next_free_id,
  get_next_transaction_id, start_transaction,
}

-- The identifier that the loop reaches in `k` rounds from `t`.
abbrev reached : ℕ → ℕ → ℕ
reached t k = 1 + (t - 1 + k) % 255

following-reached : (t k : ℕ) → 0 < t → t < 256 → following_id (reached t k) ≡ reached t (suc k)
unfolding following_id
following-reached t k p l = ground arith

-- Every identifier from 1 to 255 other than `t` is reached within 254 rounds.
rounds_to : ℕ → ℕ → ℕ
rounds_to t id = (id + 255 - t) % 255

reached-rounds_to :
    (t id : ℕ)
    → 0 < t
    → t < 256
    → 0 < id
    → id < 256
    → id ≢ t
    → (reached t (rounds_to t id) ≡ id) × (0 < rounds_to t id) × (rounds_to t id < 255)
unfolding rounds_to
reached-rounds_to t id p l q m ne = elim (dec_lt id t) [
  | yes below ↦ ground arith
  | no above ↦ let over : t < id = ground (arith, ne) in omega arith
]

-- What the loop ends with: an identifier that is free, while another than the first one is.
record Found (t : ℕ) (ps : List PendingTransaction) (id : ℕ) : Type 0 where
  pos : 0 < id
  fits : id < 256
  free : is_pending id ps ≡ false
  other : (id == t) ≡ false

stops-Found :
    (t k : ℕ) (ps : List PendingTransaction) (rest : ℕ)
    → 0 < t
    → t < 256
    → k + 1 < 255
    → is_pending (reached t (suc k)) ps ≡ false
    → Found t ps (
        if is_pending (following_id (reached t k)) ps && following_id (reached t k) != t
        then rest
        else following_id (reached t k))
stops-Found t k ps rest p l b free =
    rw (following-reached t k p l, free)
      (record { pos = omega arith; fits = omega arith; free = free; other = ground arith })

goes_on :
    (t k : ℕ) (ps : List PendingTransaction) (rest : ℕ)
    → 0 < t
    → t < 256
    → k + 1 < 255
    → is_pending (reached t (suc k)) ps ≡ true
    → (if is_pending (following_id (reached t k)) ps && following_id (reached t k) != t
        then rest
        else following_id (reached t k))
      ≡ rest
goes_on t k ps rest p l e taken = rw (following-reached t k p l, taken) (ground arith)

-- With `d` rounds to go to a free identifier, the loop stops there or before.
next_free_id-Found :
    (d fuel t k : ℕ) (ps : List PendingTransaction)
    → 0 < t
    → t < 256
    → k + suc d < 255
    → d < fuel
    → is_pending (reached t (k + suc d)) ps ≡ false
    → Found t ps (next_free_id fuel t ps (reached t k))
unfolding next_free_id
next_free_id-Found d zero t k ps p l e f free = absurd (omega arith)
next_free_id-Found zero (suc fuel) t k ps p l e f free =
    let one : k + 1 ≡ suc k = omega arith in
    stops-Found t k ps _ p l (omega arith)
      (subst (λ j. is_pending (reached t j) ps ≡ false) one free)
next_free_id-Found (suc d) (suc fuel) t k ps p l e f free =
    elim (Bool-cases (is_pending (reached t (suc k)) ps)) [
      | inr vacant ↦ stops-Found t k ps _ p l (omega arith) vacant
      | inl taken ↦
          let one : k + suc (suc d) ≡ suc k + suc d = omega arith in
          let found =
            next_free_id-Found d fuel t (suc k) ps p l (omega arith) (omega arith)
              (subst (λ j. is_pending (reached t j) ps ≡ false) one free) in
          subst (Found t ps) (sym (goes_on t k ps _ p l (omega arith) taken)) (
            subst (λ j. Found t ps (next_free_id fuel t ps j)) (sym (following-reached t k p l))
              found)
    ]

-- The service gives out identifiers of 1 to 255, and the next one is not pending.
pub record IsService (s : TransactionService) : Type 0 where
  pub pos : 0 < s.next_transaction_id
  pub fits : s.next_transaction_id < 256
  pub fresh : is_pending s.next_transaction_id s.pending ≡ false

keep-fresh :
    (id : ℕ) (ps : List PendingTransaction)
    → is_pending id ps ≡ false
    → keep_if (λ p. not (has_id id p)) ps ≡ ps
unfolding is_pending keep_if
keep-fresh id [] e = refl
keep-fresh id (p ∷ ps) e = ground (arith, keep-fresh id ps)

-- What StartTransaction() does while another identifier is free.
pub record Started (id : ℕ) (s t : TransactionService) (started : PendingTransaction) : Type 0 where
  pub names : started.transaction_id ≡ id
  pub was_free : is_pending id s.pending ≡ false
  pub adds : t.pending ≡ started ∷ s.pending
  pub valid : IsService t

is_pending-cons :
    (id : ℕ) (p : PendingTransaction) (ps : List PendingTransaction)
    → (id == p.transaction_id) ≡ false
    → is_pending id ps ≡ false
    → is_pending id (p ∷ ps) ≡ false
unfolding is_pending
is_pending-cons id p ps e f = ground arith

abbrev pub new_transaction : ℕ → ℕ → ℕ → Bool → ℕ → TransactionService → PendingTransaction
new_transaction target command timeout has_callback now s = record {
  transaction_id = s.next_transaction_id;
  start_time = now;
  timeout = timeout;
  has_callback = has_callback;
  expected_command = command;
  target_device_id = target;
}

next-Found :
    (free : ℕ) (s : TransactionService)
    → IsService s
    → 0 < free
    → free < 256
    → free ≢ s.next_transaction_id
    → is_pending free s.pending ≡ false
    → Found s.next_transaction_id s.pending
        (next_free_id 255 s.next_transaction_id s.pending s.next_transaction_id)
next-Found free s v q m ne vacant =
    let t = s.next_transaction_id in
    let (there, some_rounds, few) = reached-rounds_to t free v.pos v.fits q m ne in
    let start_at : reached t 0 ≡ t = let l = v.fits in let p = v.pos in omega arith in
    let d = rounds_to t free - 1 in
    let whole : rounds_to t free ≡ 0 + suc d = omega arith in
    subst (λ i. Found t s.pending (next_free_id 255 t s.pending i)) start_at
      (next_free_id-Found d 255 t 0 s.pending v.pos v.fits (omega arith) (omega arith) (
        subst (λ j. is_pending (reached t j) s.pending ≡ false) whole
          (subst (λ i. is_pending i s.pending ≡ false) (sym there) vacant)))

-- A transaction is started under an identifier that was not pending, the others stay, and the next
-- identifier is free again, as long as one identifier besides the one given out is free.
pub start_transaction-Started :
    (target command timeout : ℕ) (has_callback : Bool) (now free : ℕ) (s : TransactionService)
    → IsService s
    → 0 < free
    → free < 256
    → free ≢ s.next_transaction_id
    → is_pending free s.pending ≡ false
    → let (id, t) = start_transaction target command timeout has_callback now s in
      Started id s t (new_transaction target command timeout has_callback now s)
unfolding start_transaction get_next_transaction_id
start_transaction-Started target command timeout has_callback now free s v q m ne vacant =
    let p = new_transaction target command timeout has_callback now s in
    let found = next-Found free s v q m ne vacant in
    let same = keep-fresh s.next_transaction_id s.pending v.fresh in
    record {
      names = refl;
      was_free = v.fresh;
      adds = ap (◌∷◌ p) same;
      valid = record {
        pos = found.pos;
        fits = found.fits;
        fresh =
            subst
              (λ ps.
                is_pending (next_free_id 255 s.next_transaction_id s.pending s.next_transaction_id)
                  (p ∷ ps)
                ≡ false)
              (sym same) (is_pending-cons _ p s.pending found.other found.free);
      };
    }
