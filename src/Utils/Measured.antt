-- ===== src/Utils/Measured.antt =====
-- What the frequency of a timer is computed of (CTasutilDeviceFrequ, src/tas_client/tas_utils.cpp).
use tas_client_api.Prelude.{
  ℕ, ◌+◌, ◌-◌, ◌*◌, ◌%◌, ◌^◌, ◌<◌, ◌≤◌, ◌≡◌, refl, false, ◌⊎◌, inl, inr, List, [], ◌∷◌, All, arith,
  ◌==◌,
}
use tas_client_api.Utils.Frequ.{
  DeviceFrequ, clear, timer_diff, time_diff_min_us, time_diff_max_us, Doubles, estimate,
  get_timer_frequency,
}
use tas_client_api.Utils.Sampled.{
  Sample, add_samples, IsLater, IsSampled, Among, IsCurrent, IsRef, IsPair, add_samples-IsHeld,
}

All-weaken :
    {A : Type 0} (P Q : A → Type 0) (xs : List A) → ((x : A) → P x → Q x) → All P xs → All Q xs
All-weaken P Q [] f h = tt
All-weaken P Q (x ∷ xs) f (h, hs) = (f x h, All-weaken P Q xs f hs)

-- Each entry of a list is among them.
All-Among : (samples : List Sample) → All (Among samples) samples
All-Among [] = tt
All-Among (s ∷ others) = (
  inl refl,
  All-weaken (Among others) (Among (s ∷ others)) others (λ x. λ h. inr h) (All-Among others),
)

-- No frequency is given yet, or it is the estimate of two of the reads that are at most 4 s apart.
abbrev pub IsMeasured : {D : Type 0} → Doubles D → List Sample → DeviceFrequ → Type 0
IsMeasured double samples k =
    (get_timer_frequency double k ≡ (double.literal "0.0", double.literal "1.0E9"))
    ⊎ ((r : Sample) × (c : Sample) × Among samples r
        × Among samples c
        × (r.after_us < c.before_us)
        × (c.after_us ≤ r.before_us + 4000000)
        × (r.ticks ≤ c.ticks)
        × (get_timer_frequency double k
            ≡ estimate double (c.ticks - r.ticks) (c.before_us - r.after_us)
                (c.after_us - r.before_us)))

few_ticks :
    (x y before after : ℕ)
    → y ≤ x + 1000 * (after - before)
    → after ≤ before + 4000000
    → y ≤ x + 4000000000
few_ticks x y before after rate near = omega arith

wraps : (x y : ℕ) → x ≤ y → y ≤ x + 4000000000 → (y % 2 ^ 32 + 2 ^ 32 - x % 2 ^ 32) % 2 ^ 32 ≡ y - x
wraps x y grows few = omega arith

-- The 32 bits lose nothing of the ticks of 4 s.
timer_diff-ticks :
    (k : DeviceFrequ) (r c : Sample)
    → IsRef k r
    → IsCurrent k c
    → IsLater r c
    → c.after_us ≤ r.before_us + 4000000
    → timer_diff k ≡ c.ticks - r.ticks
unfolding timer_diff
timer_diff-ticks k r c ref cur later near =
    let few : c.ticks ≤ r.ticks + 4000000000 =
      few_ticks r.ticks c.ticks r.before_us c.after_us later.rate near in
    rw ref.value (rw cur.value (wraps r.ticks c.ticks later.grows few))

time_diff-times :
    (k : DeviceFrequ) (r c : Sample)
    → IsRef k r
    → IsCurrent k c
    → IsLater r c
    → (time_diff_min_us k ≡ c.before_us - r.after_us)
      × (time_diff_max_us k ≡ c.after_us - r.before_us)
unfolding time_diff_min_us time_diff_max_us
time_diff-times k r c ref cur later =
    let t = later.times in
    let u = ref.taken in
    let v = cur.taken in
    let e = cur.bound in
    (rw cur.before (rw ref.after (omega arith)), rw cur.after (rw ref.before (omega arith)))

get_timer_frequency-pair :
    {D : Type 0} (double : Doubles D) (samples : List Sample) (k : DeviceFrequ) (r : Sample)
    → Among samples r
    → IsRef k r
    → IsPair (Among samples) k r
    → IsMeasured double samples k
unfolding get_timer_frequency
get_timer_frequency-pair double samples k r p ref (inl z) = inl (rw z refl)
get_timer_frequency-pair double samples k r p ref (inr (c, q, cur, later, near)) =
    let running : (k.timestamp_after_us == 0) ≡ false =
      let a = cur.after in let t = cur.taken in ground arith in
    let (min, max) = time_diff-times k r c ref cur later in
    inr (
      r,
      c,
      p,
      q,
      later.times,
      near,
      later.grows,
      rw running (rw (timer_diff-ticks k r c ref cur later near) (rw min (rw max refl))),
    )

-- After the samples of a timer of at most 1 GHz, added in their order to a cleared object, either no
-- frequency is given, but 0 with the deviation of 1 GHz; or it is the estimate for two of the samples
-- that are at most 4 s apart, with the true number of ticks between them, though the timer's 32 bits
-- may have wrapped around, and with the shortest and the longest time that may have passed.
pub add_samples-IsMeasured :
    {D : Type 0} (double : Doubles D) (samples : List Sample) (k : DeviceFrequ)
    → IsSampled samples
    → IsMeasured double samples (add_samples (clear k) samples)
unfolding get_timer_frequency
add_samples-IsMeasured double samples k sampled =
    elim (add_samples-IsHeld (Among samples) samples (clear k) (All-Among samples) sampled
      (inl (refl, refl))) [
        | inl (e, z) ↦ inl (rw z refl)
        | inr (r, p, ref, u, pair) ↦
            get_timer_frequency-pair double samples (add_samples (clear k) samples) r p ref pair
      ]
