-- ===== src/Cdmp/State/Local/Resends.antt =====
-- Transmit(): how often one value of a record is sent.
use rt_core.Prelude.{
  ℕ, suc, ◌+◌, ◌≤◌, ◌<◌, ◌≡◌, refl, true, false, ◌&&◌, List, [], ◌∷◌, arith, length, ltb, leb, ◌==◌,
  if◌then◌else◌, Bool-cases, inl, inr,
}
use rt_core.Cdmp.State.Local.{LocalRecord, transmit_record, backoff}

-- Runs of Transmit() at these times, without a change of the record and with no acknowledgement: the
-- number that send it.
unfoldable pub count_sent : List ℕ → List ℕ → LocalRecord → ℕ
unfolding transmit_record
count_sent online_peers [] r = 0
count_sent online_peers (now ∷ times) r =
    let (r', is_sent) = transmit_record now online_peers r in
    let n = count_sent online_peers times r' in if is_sent then suc n else n

quiet :
    (online_peers times : List ℕ) (r : LocalRecord)
    → r.is_announce_pending ≡ false
    → r.unacknowledged ≡ []
    → count_sent online_peers times r ≡ 0
unfolding count_sent
quiet online_peers [] r p e = refl
quiet online_peers (now ∷ times) r p e = ground (arith, quiet online_peers times r p e)

resends :
    (online_peers times : List ℕ) (r : LocalRecord)
    → r.is_announce_pending ≡ false
    → r.retransmit_count < 3
    → count_sent online_peers times r + r.retransmit_count ≤ 3
unfolding count_sent
resends online_peers [] r p l = omega arith
resends online_peers (now ∷ times) r p l =
    elim (Bool-cases (ltb 0 (length r.unacknowledged) && leb r.next_retransmit_ms now)) [
      | inr waits ↦
          rw (p, waits, transmit_record)
            (resends online_peers times (record r { is_announce_pending = false }) refl l)
      | inl due ↦ elim (Bool-cases (r.retransmit_count + 1 == 3)) [
        | inl last ↦
            let ended : LocalRecord = record r {
              is_announce_pending = false;
              retransmit_count = r.retransmit_count + 1;
              unacknowledged = [];
            } in
            let none_left = quiet online_peers times ended refl refl in
            rw (p, due, last, transmit_record) (omega (arith, none_left))
        | inr more ↦
            let again : LocalRecord = record r {
              is_announce_pending = false;
              retransmit_count = r.retransmit_count + 1;
              next_retransmit_ms = now + backoff (r.retransmit_count + 1);
            } in
            let rest = resends online_peers times again refl (ground arith) in
            rw (p, due, more, transmit_record) (omega (arith, rest))
      ]
    ]

-- Whatever the times, a change that nobody acknowledges is sent at most four times: when it is
-- announced, and three times after that.
pub count_sent_four :
    (online_peers times : List ℕ) (r : LocalRecord)
    → r.is_announce_pending ≡ true
    → count_sent online_peers times r ≤ 4
unfolding count_sent
count_sent_four online_peers [] r p = omega arith
count_sent_four online_peers (now ∷ times) r p =
    let announced : LocalRecord = record r {
      is_announce_pending = false;
      retransmit_count = 0;
      unacknowledged = online_peers;
      next_retransmit_ms = now + backoff 0;
    } in
    let rest = resends online_peers times announced refl (omega arith) in
    rw (p, transmit_record) (omega (arith, rest))
