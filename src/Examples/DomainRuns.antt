-- ===== src/Examples/DomainRuns.antt =====
-- The theorems on the sensors and the CAN signals at concrete inputs, and tests of their definitions. The
-- IDs of sensors are numbers here.
use rt_core.Prelude.{
  ℕ, ◌≡◌, refl, Bool, true, false, List, some, [], ◌∷◌, ◌==◌, arith, ◌^◌, ◌/◌, ◌<◌, ◌-◌, length,
}
use rt_core.Sensor.Order.{
  Sensor, Resolver, Expression, no_expression, variables, add_sensor, ordered, cyclic_dependency,
  unknown_sensor, get_processing_order,
}
use rt_core.Canbus.Signal.{
  Signal, big_endian_motorola, bit_at, signal_bits, is_layout_valid, encode_raw, decode_raw,
  sign_extended,
}
use rt_core.Canbus.Signal.Layout.{has_frame_bit, signal_bits-inside}
use rt_core.Canbus.Signal.RoundTrip.{decode-encode}
use rt_core.Sensor.Order.Sets.{IsEquality}
use rt_core.Sensor.Order.Tables.{Built, nothing, adds, get_processing_order-Verified}
use rt_core.Sensor.Order.Result.{Verified}

abbrev same : ℕ → ℕ → Bool
same x y = x == y

same-IsEquality : IsEquality same
same-IsEquality = record { same_refl = λ x. ground arith; sound = λ x y h. ground arith }

abbrev sensor : ℕ → Expression ℕ → Sensor ℕ
sensor id expression = record { id = id; expression = expression }

-- 1 depends on 2 and 3, and 2 on 3; the tables put 1 first.
abbrev resolver : Resolver ℕ
resolver = record {
  dependencies = (1, 2 ∷ 3 ∷ []) ∷ (3, []) ∷ (2, 3 ∷ []) ∷ [];
  sensors = 1 ∷ 3 ∷ 2 ∷ [];
}

resolver-Built : Built same resolver
resolver-Built =
    adds
      (adds
        (adds nothing 0 0 (sensor 2 (variables (3 ∷ [])))
          (record { dependencies = (2, 3 ∷ []) ∷ []; sensors = 2 ∷ [] })
          (unfold add_sensor in refl))
        0 0 (sensor 3 no_expression)
        (record { dependencies = (3, []) ∷ (2, 3 ∷ []) ∷ []; sensors = 3 ∷ 2 ∷ [] })
        (unfold add_sensor in refl))
      0 0 (sensor 1 (variables (2 ∷ 3 ∷ []))) resolver (unfold add_sensor in refl)

get_processing_order-Verified_example :
    Verified same same-IsEquality resolver (get_processing_order same resolver)
get_processing_order-Verified_example =
    get_processing_order-Verified same same-IsEquality resolver resolver-Built

order_test : get_processing_order same resolver ≡ ordered (3 ∷ 2 ∷ 1 ∷ [])
unfolding get_processing_order
order_test = refl

cycle_test :
    get_processing_order same
      (record { dependencies = (1, 2 ∷ []) ∷ (2, 1 ∷ []) ∷ []; sensors = 1 ∷ 2 ∷ [] })
    ≡ cyclic_dependency
unfolding get_processing_order
cycle_test = refl

unknown_test :
    get_processing_order same (record { dependencies = (1, 7 ∷ []) ∷ []; sensors = 1 ∷ [] })
    ≡ unknown_sensor
unfolding get_processing_order
unknown_test = refl

-- A signal of 12 bits in Motorola order over the bytes 1 and 2.
abbrev rpm : Signal
rpm = record { start_bit = 11; size_bits = 12; byte_order = big_endian_motorola; is_signed = true }

abbrev idle_frame : List ℕ
idle_frame = 1 ∷ 0xF0 ∷ 0 ∷ 9 ∷ []

decode-encode_example :
    (written : List ℕ) × (encode_raw rpm 0xABC idle_frame ≡ some written)
    × (length written ≡ 4)
    × ((q : ℕ) → has_frame_bit q (signal_bits rpm) ≡ false → bit_at written q ≡ bit_at idle_frame q)
    × (decode_raw rpm written ≡ some 0xABC)
decode-encode_example =
    decode-encode rpm 0xABC idle_frame (unfold is_layout_valid in refl) (omega arith)

encode_test : encode_raw rpm 0xABC idle_frame ≡ some (1 ∷ 0xFA ∷ 0xBC ∷ 9 ∷ [])
unfolding encode_raw
encode_test = refl

-- 0xABC is negative in 12 bits.
sign_test : sign_extended rpm 0xABC ≡ 2 ^ 64 - 0x544
unfolding sign_extended
sign_test = refl

signal_bits-inside_example : 23 / 8 < 4
signal_bits-inside_example =
    signal_bits-inside rpm 4 23 (unfold is_layout_valid in refl)
      (unfold has_frame_bit signal_bits in refl)
