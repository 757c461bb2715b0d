-- ===== src/Cdmp/Transactions/Balance.antt =====
-- cdmp_transaction_service.cpp: every transaction that was started is pending, or has ended once.
use mathlib.Core.List.{append_assoc, map-append}
use mathlib.Core.List.Perm
use mathlib.Core.List.{Perm, perm_middle}
use rt_core.Prelude.{
  ℕ, zero, suc, ◌<◌, ◌≡◌, ◌≢◌, refl, sym, ap, subst, ◌∙◌, inl, inr, Bool, false, some, List, [],
  ◌∷◌, ◌++◌, length, map, arith, Bool-cases, Option-cases, append-nil, not, ◌||◌,
}
use rt_core.Cdmp.Messages.Command.{CommandResponse}
use rt_core.Cdmp.Transactions.{
  PendingTransaction, TransactionService, Ended, has_id, is_pending, extract, has_expired,
  start_transaction, complete_transaction, cleanup_expired, process_transaction_timeouts, start,
  stop, is_response_to, cancelled, timed_out, answered, expire_next,
}
use rt_core.Cdmp.Transactions.Fresh.{IsService, start_transaction-Started, new_transaction}

-- The operations in any order, with the transactions started, the last one first, and what became of
-- those that ended. One identifier besides the next one is free whenever a transaction is started. A
-- round of the expiry loop, `expires_next`, may come at any point, with any time read before.
pub data History (s : TransactionService)
    : List PendingTransaction → List Ended → TransactionService → Type 0 where
  begins : History s [] [] s
  starts :
      {ps : List PendingTransaction} {es : List Ended} {t : TransactionService}
      → History s ps es t
      → (target command timeout : ℕ) (has_callback : Bool) (now free : ℕ) → 0 < free
      → free < 256
      → free ≢ t.next_transaction_id
      → is_pending free t.pending ≡ false
      → History s
          (new_transaction target command timeout has_callback now t ∷ ps)
          es
          (start_transaction target command timeout has_callback now t).1
  completes :
      {ps : List PendingTransaction} {es : List Ended} {t : TransactionService}
      → History s ps es t
      → (r : CommandResponse)
      → History s ps (es ++ (complete_transaction r t).1) (complete_transaction r t).0
  expires :
      {ps : List PendingTransaction} {es : List Ended} {t : TransactionService}
      → History s ps es t
      → (now : ℕ)
      → History s ps
          (es ++ (process_transaction_timeouts now t).1)
          (process_transaction_timeouts now t).0
  expires_next :
      {ps : List PendingTransaction} {es : List Ended} {t : TransactionService}
      → History s ps es t
      → (now : ℕ) → History s ps (es ++ (expire_next now t).1) (expire_next now t).0
  runs :
      {ps : List PendingTransaction} {es : List Ended} {t : TransactionService}
      → History s ps es t
      → History s ps es (start t)
  stops :
      {ps : List PendingTransaction} {es : List Ended} {t : TransactionService}
      → History s ps es t
      → History s ps (es ++ (stop t).1) (stop t).0

-- The transactions that ended.
abbrev pub ended_of : List Ended → List PendingTransaction
ended_of es = map (λ (e : Ended). e.transaction) es

-- `ended` transactions have left the list, each once, and no identifier has come to it.
record Left (ps qs ended : List PendingTransaction) : Type 0 where
  parts : Perm (ended ++ qs) ps
  fewer : (id : ℕ) → is_pending id ps ≡ false → is_pending id qs ≡ false

extract-Left :
    (holds : PendingTransaction → Bool) (ps qs : List PendingTransaction) {p : PendingTransaction}
    → extract holds ps ≡ some (p, qs)
    → Left ps qs (p ∷ [])
unfolding extract is_pending
extract-Left holds [] qs e = cc
extract-Left holds (p ∷ ps) qs {p = q} e = elim (Bool-cases (holds p)) [
  | inl here ↦
      let same : p ∷ ps ≡ q ∷ qs = ground arith in
      record {
        parts = subst (λ rs. Perm (q ∷ qs) rs) (sym same) (Perm.refl (q ∷ qs));
        fewer = λ id f. ground arith;
      }
  | inr later ↦ elim (Option-cases (extract holds ps)) [
    | inl missing ↦ absurd (ground arith)
    | inr ((r, rest), found) ↦
        let ih = extract-Left holds ps rest found in
        let same : r ∷ p ∷ rest ≡ q ∷ qs = ground arith in
        record {
          parts =
              subst (λ rs. Perm rs (p ∷ ps)) same
                (Perm.trans (Perm.symm (perm_middle (p ∷ []) rest)) (Perm.cons p ih.parts));
          fewer = λ id f. ground (arith, ih.fewer id);
        }
  ]
]

abbrev LeftBy : List PendingTransaction → List PendingTransaction × List Ended → Type 0
LeftBy ps (qs, es) = Left ps qs (ended_of es)

Left-refl : (ps : List PendingTransaction) → Left ps ps []
Left-refl ps = record { parts = Perm.refl ps; fewer = λ id f. f }

cleanup_expired-Left :
    (fuel now : ℕ) (ps : List PendingTransaction) → LeftBy ps (cleanup_expired fuel now ps)
unfolding cleanup_expired
cleanup_expired-Left zero now ps = Left-refl ps
cleanup_expired-Left (suc fuel) now ps = elim (Option-cases (extract (has_expired now) ps)) [
  | inl missing ↦
      let e : cleanup_expired (suc fuel) now ps ≡ (ps, []) = ground arith in
      subst (LeftBy ps) (sym e) (Left-refl ps)
  | inr ((p, rest), found) ↦
      let one = extract-Left (has_expired now) ps rest found in
      let ih = cleanup_expired-Left fuel now rest in
      let (left, ended) = cleanup_expired fuel now rest in
      let e : cleanup_expired (suc fuel) now ps
          ≡ (left, record { transaction = p; outcome = timed_out } ∷ ended) =
        ground arith in
      subst (LeftBy ps) (sym e) (record {
        parts = Perm.trans (Perm.cons p ih.parts) one.parts;
        fewer = λ id f. ih.fewer id (one.fewer id f);
      })
]

-- An operation that ends transactions gives out no identifier.
abbrev Ends : TransactionService → TransactionService × List Ended → Type 0
Ends s (t, es) =
    Left s.pending t.pending (ended_of es) × (t.next_transaction_id ≡ s.next_transaction_id)

expire_next-Ends : (now : ℕ) (s : TransactionService) → Ends s (expire_next now s)
unfolding expire_next
expire_next-Ends now s = elim (Option-cases (extract (has_expired now) s.pending)) [
  | inl missing ↦
      let e : expire_next now s ≡ (s, []) = ground arith in
      subst (Ends s) (sym e) (Left-refl s.pending, refl)
  | inr ((p, rest), found) ↦
      let e : expire_next now s
          ≡ (record s { pending = rest }, record { transaction = p; outcome = timed_out } ∷ []) =
        ground arith in
      subst (Ends s) (sym e) (extract-Left (has_expired now) s.pending rest found, refl)
]

complete_transaction-Ends :
    (r : CommandResponse) (s : TransactionService) → Ends s (complete_transaction r s)
unfolding complete_transaction
complete_transaction-Ends r s = elim (Option-cases (extract (has_id r.transaction_id) s.pending)) [
  | inl missing ↦
      let e : complete_transaction r s ≡ (s, []) = ground arith in
      subst (Ends s) (sym e) (Left-refl s.pending, refl)
  | inr ((p, rest), found) ↦ elim (Bool-cases (is_response_to p r)) [
    | inr other ↦
        let e : complete_transaction r s ≡ (s, []) = ground arith in
        subst (Ends s) (sym e) (Left-refl s.pending, refl)
    | inl answer ↦
        let t = record s { pending = rest } in
        let e : complete_transaction r s
            ≡ (t, record { transaction = p; outcome = answered r.result_code r.payload } ∷ []) =
          ground arith in
        subst (Ends s) (sym e) (extract-Left (has_id r.transaction_id) s.pending rest found, refl)
  ]
]

timeouts-Ends : (now : ℕ) (s : TransactionService) → Ends s (process_transaction_timeouts now s)
unfolding process_transaction_timeouts
timeouts-Ends now s = elim (Bool-cases (not s.is_timeout_task_running || not s.has_timeout_task)) [
  | inl idle ↦ rw idle (Left-refl s.pending, refl)
  | inr due ↦ rw due (cleanup_expired-Left (length s.pending) now s.pending, refl)
]

ended_of-cancelled :
    (ps : List PendingTransaction)
    → ended_of (
        map
          (λ (t : PendingTransaction).
            let e : Ended = record { transaction = t; outcome = cancelled } in e)
          ps)
      ≡ ps
ended_of-cancelled [] = refl
ended_of-cancelled (p ∷ ps) = ap (◌∷◌ p) (ended_of-cancelled ps)

stop-Ends : (s : TransactionService) → Ends s (stop s)
unfolding stop is_pending
stop-Ends s = (
  record {
    parts =
        subst (λ qs. Perm (qs ++ []) s.pending) (sym (ended_of-cancelled s.pending))
          (subst (λ qs. Perm qs s.pending) (sym (append-nil s.pending)) (Perm.refl s.pending));
    fewer = λ id f. refl;
  },
  refl,
)

start-Left :
    (s : TransactionService)
    → ((start s).pending ≡ s.pending) × ((start s).next_transaction_id ≡ s.next_transaction_id)
unfolding start
start-Left s = ground arith

-- The transactions started are those that ended, each once, and those still pending.
pub record Balanced (ps : List PendingTransaction) (es : List Ended) (t : TransactionService)
    : Type 0 where
  pub balance : Perm (ended_of es ++ t.pending) ps
  pub valid : IsService t

Left-Balanced :
    (ps : List PendingTransaction) (es ended : List Ended) (s t : TransactionService)
    → Balanced ps es s
    → Ends s (t, ended)
    → Balanced ps (es ++ ended) t
Left-Balanced ps es ended s t b (left, same) = record {
  balance =
      let split : ended_of (es ++ ended) ++ t.pending
          ≡ ended_of es ++ (ended_of ended ++ t.pending) =
        ap (λ qs. qs ++ t.pending) (map-append _ es ended)
        ∙ append_assoc (ended_of es) (ended_of ended) t.pending in
      subst (λ qs. Perm qs ps) (sym split)
        (Perm.trans (Perm.append_left (ended_of es) left.parts) b.balance);
  valid = record {
    pos = omega (arith, same, b.valid.pos);
    fits = omega (arith, same, b.valid.fits);
    fresh = subst (λ id. is_pending id t.pending ≡ false) (sym same) (left.fewer _ b.valid.fresh);
  };
}

-- From a service with nothing pending, in any order of starts, responses, timeouts, single rounds of the
-- expiry loop and stops: the transactions started are, in some order, those that ended, each once, and
-- those still pending, and the next identifier is a free one of 1 to 255; as long as each start leaves
-- one more identifier free.
pub History-Balanced :
    {s : TransactionService} {ps : List PendingTransaction} {es : List Ended}
    {t : TransactionService}
    → IsService s
    → s.pending ≡ []
    → History s ps es t
    → Balanced ps es t
History-Balanced {s} v e begins = record {
  balance = subst (λ qs. Perm qs []) (sym e) (Perm.refl []);
  valid = v;
}
History-Balanced v e
      (starts {ps = ps} {es = es} {t = t} h target command timeout has_callback now free q m ne
        vacant) =
    let b = History-Balanced v e h in
    let p = new_transaction target command timeout has_callback now t in
    let k =
      start_transaction-Started target command timeout has_callback now free t b.valid q m ne
        vacant in
    record {
      balance =
          subst (λ qs. Perm (ended_of es ++ qs) (p ∷ ps)) (sym k.adds)
            (Perm.trans (perm_middle (ended_of es) t.pending) (Perm.cons p b.balance));
      valid = k.valid;
    }
History-Balanced v e (completes {ps = ps} {es = es} {t = t} h r) =
    Left-Balanced ps es _ t _ (History-Balanced v e h) (complete_transaction-Ends r t)
History-Balanced v e (expires {ps = ps} {es = es} {t = t} h now) =
    Left-Balanced ps es _ t _ (History-Balanced v e h) (timeouts-Ends now t)
History-Balanced v e (expires_next {ps = ps} {es = es} {t = t} h now) =
    Left-Balanced ps es _ t _ (History-Balanced v e h) (expire_next-Ends now t)
History-Balanced v e (runs {ps = ps} {es = es} {t = t} h) =
    let b = History-Balanced v e h in
    let (same, id) = start-Left t in
    record {
      balance = subst (λ qs. Perm (ended_of es ++ qs) ps) (sym same) b.balance;
      valid = record {
        pos = omega (arith, id, b.valid.pos);
        fits = omega (arith, id, b.valid.fits);
        fresh =
            ap (λ qs. is_pending (start t).next_transaction_id qs) same
            ∙ ap (λ i. is_pending i t.pending) id
            ∙ b.valid.fresh;
      };
    }
History-Balanced v e (stops {ps = ps} {es = es} {t = t} h) =
    Left-Balanced ps es _ t _ (History-Balanced v e h) (stop-Ends t)
