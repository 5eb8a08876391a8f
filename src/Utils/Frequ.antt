-- ===== src/Utils/Frequ.antt =====
-- CTasutilDeviceFrequ (src/tas_client/tas_utils.h and tas_utils.cpp): the frequency of a timer of the
-- device, out of samples of its value. The type of the floating-point numbers and their operations
-- are parameters.
use tas_client_api.Prelude.{ℕ, ◌+◌, ◌-◌, ◌%◌, ◌^◌, Bool, String, ltb, ◌==◌, if◌then◌else◌}

pub record DeviceFrequ : Type 0 where
  pub ref_timer_value : ℕ
  pub timer_value : ℕ
  pub ref_timestamp_before_us : ℕ
  pub ref_timestamp_after_us : ℕ
  pub timestamp_before_us : ℕ
  pub timestamp_after_us : ℕ

abbrev pub clear_ref_value : DeviceFrequ → DeviceFrequ
clear_ref_value k = record k {
  ref_timer_value = 0;
  ref_timestamp_before_us = 0;
  ref_timestamp_after_us = 0;
}

abbrev pub clear_value : DeviceFrequ → DeviceFrequ
clear_value k = record k { timer_value = 0; timestamp_before_us = 0; timestamp_after_us = 0 }

-- `clear`, which the constructor also does.
abbrev pub clear : DeviceFrequ → DeviceFrequ
clear k = clear_value (clear_ref_value k)

abbrev pub max_sample_distance_time_us : ℕ
max_sample_distance_time_us = 4000000

-- The sample becomes the one that the next are compared with.
abbrev pub set_ref : ℕ → ℕ → ℕ → DeviceFrequ → DeviceFrequ
set_ref value before_us after_us k = clear_value (record k {
  ref_timer_value = value;
  ref_timestamp_before_us = before_us;
  ref_timestamp_after_us = after_us;
})

unfoldable pub add_timer_sample : ℕ → ℕ → ℕ → DeviceFrequ → DeviceFrequ
add_timer_sample value before_us after_us k =
    if k.ref_timestamp_after_us == 0
    then set_ref value before_us after_us k
    else if ltb ((k.ref_timestamp_before_us + max_sample_distance_time_us) % 2 ^ 64) after_us
    then set_ref value before_us after_us k
    else record k {
      timer_value = value;
      timestamp_before_us = before_us;
      timestamp_after_us = after_us;
    }

-- The differences that the frequency is computed of, of 32 and of 64 bits.
unfoldable pub timer_diff : DeviceFrequ → ℕ
timer_diff k = (k.timer_value + 2 ^ 32 - k.ref_timer_value) % 2 ^ 32

unfoldable pub time_diff_min_us : DeviceFrequ → ℕ
time_diff_min_us k = (k.timestamp_before_us + 2 ^ 64 - k.ref_timestamp_after_us) % 2 ^ 64

unfoldable pub time_diff_max_us : DeviceFrequ → ℕ
time_diff_max_us k = (k.timestamp_after_us + 2 ^ 64 - k.ref_timestamp_before_us) % 2 ^ 64

-- The operations of `double` that the source uses; `literal` is a number as it is written, and
-- `to_int` the conversion to an `int`, of numbers that are not negative.
pub record Doubles (D : Type 0) : Type 0 where
  pub literal : String → D
  pub of_int : ℕ → D
  pub to_int : D → ℕ
  pub add : D → D → D
  pub sub : D → D → D
  pub mul : D → D → D
  pub div : D → D → D
  pub gt : D → D → Bool

module _ {D : Type 0} (double : Doubles D) where
  -- The frequency and its deviation in Hz, given the bounds in MHz.
  abbrev pub between : D → D → D × D
  between max_mhz min_mhz =
      let rounded = double.to_int (double.mul max_mhz (double.literal "1.001")) in
      let mega = double.literal "1.0E6" in
      let frequency = double.mul (double.of_int rounded) mega in
      let upper = double.sub (double.mul max_mhz mega) frequency in
      let lower = double.sub frequency (double.mul min_mhz mega) in
      if rounded == double.to_int min_mhz + 1
      then (frequency, if double.gt upper lower then upper else lower)
      else (
        double.div (double.mul (double.add max_mhz min_mhz) mega) (double.of_int 2),
        double.div (double.mul (double.sub max_mhz min_mhz) mega) (double.of_int 2),
      )

  -- Of so many ticks in a time of at least `min_us` and at most `max_us`.
  unfoldable pub estimate : ℕ → ℕ → ℕ → D × D
  estimate ticks min_us max_us =
      between (double.div (double.of_int ticks) (double.of_int min_us))
        (double.div (double.of_int ticks) (double.of_int max_us))

  unfoldable pub get_timer_frequency : DeviceFrequ → D × D
  unfolding timer_diff time_diff_min_us time_diff_max_us estimate
  get_timer_frequency k =
      if k.timestamp_after_us == 0
      then (double.literal "0.0", double.literal "1.0E9")
      else estimate (timer_diff k) (time_diff_min_us k) (time_diff_max_us k)
