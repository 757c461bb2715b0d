-- ===== src/Examples/DfuRuns.antt =====
-- The theorems on the update of the firmware at concrete inputs, and tests of its definitions.
use rt_core.Prelude.{◌∷◌, List, [], ◌++◌, ℕ, ◌≡◌, refl, Bool, true, false, none, some, arith}
use rt_core.Dfu.Confirmation.{
  failed, ImageConfirmation, Round, make_image_confirmation, initialize, add_probe,
  report_boot_complete, tick, is_reached, get_confirm_in_ms, needs_tick, get_tick_interval_ms,
}
use rt_core.Dfu.Identity.{ImageIdentity, match, bad_identity, parse_tlvs}
use rt_core.Dfu.Identity.Areas.{
  Tlv, area_bytes, identity_values, judged, parse_tlvs-area_bytes, IsSmall, tlv_bytes,
}
use rt_core.Dfu.Confirmation.Ticks.{feeds, confirms}
use rt_core.Dfu.Confirmation.Failed.{begins, ticks as later_ticks, missed_deadline, tick-Fails}
use rt_core.Dfu.Confirmation.History.{History, ticks}

abbrev machine : ImageConfirmation
machine = make_image_confirmation true (record {
  self_confirm = true;
  boot_deadline_ms = 60_000;
  confirm_delay_ms = 20_000;
  watchdog_timeout_ms = 8000;
})

abbrev round : ℕ → (ℕ → Bool) → Round
round clock_ms ran = record {
  clock_ms = clock_ms;
  is_confirmed = false;
  ran = ran;
  disable_result = 0;
  confirm_result = 0;
  before_exchange = none;
  before_probes = none;
  before_decision = none;
}

-- The first boot on the image, with one probe.
abbrev booted : ImageConfirmation
booted = add_probe (initialize false 0 0 1000 machine).1

abbrev complete : ImageConfirmation
complete = report_boot_complete 10_000 booted

abbrev posted : ImageConfirmation
posted = tick (round 28_000 (λ i. true)) complete

-- Boot complete is not reported by 61 s, and a late report changes nothing.
tick-Fails_example :
    let t = tick (round 63_000 (λ i. true)) (tick (round 61_000 (λ i. true)) booted) in
    (t.state ≡ failed)
    × (feeds t.calls ≡ feeds booted.calls)
    × (confirms t.calls ≡ confirms booted.calls)
tick-Fails_example =
    tick-Fails (round 61_000 (λ i. true)) booted _ refl
      (missed_deadline (unfold add_probe initialize make_image_confirmation in refl) refl
        (unfold add_probe initialize make_image_confirmation is_reached in refl))
      (later_ticks begins (round 63_000 (λ i. true)) refl)

-- The clock wraps between the report and the confirmation.
wrap_test : is_reached 300 4294967200 ≡ true
unfolding is_reached
wrap_test = refl

countdown_test : get_confirm_in_ms 25_000 complete ≡ some 5000
unfolding get_confirm_in_ms report_boot_complete add_probe initialize make_image_confirmation
countdown_test = refl

-- A probe that was posted at 28 s and has not run at 32 s fails the image.
stuck_test :
    let t = tick (round 32_000 (λ i. false)) posted in
    (t.state ≡ failed) × (needs_tick t ≡ true) × (get_tick_interval_ms t ≡ 2000)
unfolding tick needs_tick get_tick_interval_ms report_boot_complete add_probe initialize
    make_image_confirmation
stuck_test = (refl, refl, refl)

-- The product 0x0102 on the board "ab", and an area with another TLV and its identity.
abbrev own : ImageIdentity
own = record { product_id = 0x0102; board = 97 ∷ 98 ∷ [] }

abbrev tlvs : List Tlv
tlvs =
    record { type = 0x50; value = 7 ∷ [] }
    ∷ record { type = 0xA0; value = 1 ∷ 2 ∷ 1 ∷ 2 ∷ 97 ∷ 98 ∷ [] }
    ∷ []

parse_tlvs-area_bytes_example : parse_tlvs own (area_bytes tlvs) ≡ judged own (identity_values tlvs)
parse_tlvs-area_bytes_example =
    parse_tlvs-area_bytes own tlvs
      (unfold IsSmall in (omega arith, omega arith, (omega arith, omega arith, tt)))
      (unfold tlv_bytes in (omega arith))

match_test : parse_tlvs own (area_bytes tlvs) ≡ match
unfolding parse_tlvs area_bytes
match_test = refl

-- The identity twice, and an area that ends inside a TLV.
refused_test :
    (parse_tlvs own (area_bytes (tlvs ++ tlvs)) ≡ bad_identity)
    × (parse_tlvs own (0x08 ∷ 0x69 ∷ 7 ∷ 0 ∷ 0xA0 ∷ 0 ∷ 1 ∷ []) ≡ bad_identity)
unfolding parse_tlvs area_bytes
refused_test = (refl, refl)
