-- ===== src/Utils/Examples.antt =====
-- The theorems on the utilities at concrete inputs.
use tas_client_api.Prelude.{ℕ, ◌+◌, ◌-◌, ◌*◌, ◌/◌, ◌≡◌, refl, List, [], ◌∷◌, ltb, arith}
use tas_client_api.Utils.Frequ.{DeviceFrequ, Doubles, clear, add_timer_sample, timer_diff}
use tas_client_api.Utils.Sampled.{Sample, add_samples, IsSampled}
use tas_client_api.Utils.Measured.{IsMeasured, add_samples-IsMeasured}
use tas_client_api.Utils.Hash.{hash32_to_str}
use tas_client_api.Utils.HashText.{IsText, hash32_to_str-IsText}

hash32_to_str-IsText_example : IsText 0x12345678 (hash32_to_str 0x12345678)
hash32_to_str-IsText_example = hash32_to_str-IsText 0x12345678

-- The uppermost bit changes the text.
first_bit : hash32_to_str 0x80000000 ≡ 88 ∷ 65 ∷ 65 ∷ 65 ∷ 65 ∷ 65 ∷ []
unfolding hash32_to_str
first_bit = refl

-- Whole numbers in place of floating-point ones.
abbrev whole : Doubles ℕ
whole = record {
  literal = λ s. 1;
  of_int = λ n. n;
  to_int = λ n. n;
  add = λ a. λ b. a + b;
  sub = λ a. λ b. a - b;
  mul = λ a. λ b. a * b;
  div = λ a. λ b. a / b;
  gt = λ a. λ b. ltb b a;
}

-- The timer's 32 bits wrap around between the two.
abbrev samples : List Sample
samples =
    record { ticks = 4294967000; before_us = 10; after_us = 20 }
    ∷ record { ticks = 4294968000; before_us = 1010; after_us = 1020 }
    ∷ []

abbrev cleared : DeviceFrequ
cleared = clear (record {
  ref_timer_value = 1;
  timer_value = 2;
  ref_timestamp_before_us = 3;
  ref_timestamp_after_us = 4;
  timestamp_before_us = 5;
  timestamp_after_us = 6;
})

wrapped : (add_samples cleared samples).timer_value ≡ 704
unfolding add_samples add_timer_sample
wrapped = refl

counted : timer_diff (add_samples cleared samples) ≡ 1000
unfolding timer_diff add_samples add_timer_sample
counted = refl

samples-IsSampled : IsSampled samples
samples-IsSampled = (
  omega arith,
  omega arith,
  (record { times = omega arith; grows = omega arith; rate = omega arith }, tt),
  (omega arith, omega arith, tt, tt),
)

add_samples-IsMeasured_example : IsMeasured whole samples (add_samples cleared samples)
add_samples-IsMeasured_example = add_samples-IsMeasured whole samples cleared samples-IsSampled
