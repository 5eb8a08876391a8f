-- ===== src/Utils/Sampled.antt =====
-- Samples of a timer, and what CTasutilDeviceFrequ holds after them (src/tas_client/tas_utils.cpp).
use tas_client_api.Prelude.{
  ℕ, ◌+◌, ◌-◌, ◌*◌, ◌%◌, ◌^◌, ◌<◌, ◌≤◌, ◌≡◌, refl, false, ◌⊎◌, inl, inr, List, [], ◌∷◌, All, Some,
  arith, ltb, ◌==◌, if-lem,
}
use tas_client_api.Utils.Frequ.{DeviceFrequ, set_ref, add_timer_sample}

-- A read of the timer that took place between two times. `ticks` counts without end, while the
-- timer has 32 bits.
pub record Sample : Type 0 where
  pub ticks : ℕ
  pub before_us : ℕ
  pub after_us : ℕ

abbrev pub add_sample : DeviceFrequ → Sample → DeviceFrequ
add_sample k s = add_timer_sample (s.ticks % 2 ^ 32) s.before_us s.after_us k

unfoldable pub add_samples : DeviceFrequ → List Sample → DeviceFrequ
unfolding add_timer_sample
add_samples k [] = k
add_samples k (s ∷ others) = add_samples (add_sample k s) others

-- The second read follows the first one, of a timer of at most 1 GHz.
pub record IsLater (s t : Sample) : Type 0 where
  pub times : s.after_us < t.before_us
  pub grows : s.ticks ≤ t.ticks
  pub rate : t.ticks ≤ s.ticks + 1000 * (t.after_us - s.before_us)

-- The reads take time, and the times stay below the end of a `uint64_t` by the distance of 4 s; each
-- read follows those before it.
abbrev pub IsSampled : List Sample → Type 0
IsSampled [] = Unit
IsSampled (s ∷ others) =
    (s.before_us < s.after_us)
    × (s.after_us + 4000000 < 2 ^ 64)
    × All (IsLater s) others
    × IsSampled others

abbrev pub Among : List Sample → Sample → Type 0
Among samples s = Some (λ (t : Sample). t ≡ s) samples

-- The fields of the later read, and of the earlier one.
pub record IsCurrent (k : DeviceFrequ) (c : Sample) : Type 0 where
  pub value : k.timer_value ≡ c.ticks % 2 ^ 32
  pub before : k.timestamp_before_us ≡ c.before_us
  pub after : k.timestamp_after_us ≡ c.after_us
  pub taken : c.before_us < c.after_us
  pub bound : c.after_us < 2 ^ 64

pub record IsRef (k : DeviceFrequ) (r : Sample) : Type 0 where
  pub value : k.ref_timer_value ≡ r.ticks % 2 ^ 32
  pub before : k.ref_timestamp_before_us ≡ r.before_us
  pub after : k.ref_timestamp_after_us ≡ r.after_us
  pub taken : r.before_us < r.after_us
  pub bound : r.after_us + 4000000 < 2 ^ 64

-- Nothing is measured yet, or two reads of at most 4 s.
abbrev pub IsPair : (Sample → Type 0) → DeviceFrequ → Sample → Type 0
IsPair P k r =
    (k.timestamp_after_us ≡ 0)
    ⊎ ((c : Sample) × P c × IsCurrent k c × IsLater r c × (c.after_us ≤ r.before_us + 4000000))

-- What holds before the reads `ahead`.
abbrev pub IsHeld : (Sample → Type 0) → List Sample → DeviceFrequ → Type 0
IsHeld P ahead k =
    ((k.ref_timestamp_after_us ≡ 0) × (k.timestamp_after_us ≡ 0))
    ⊎ ((r : Sample) × P r × IsRef k r × All (IsLater r) ahead × IsPair P k r)

add_sample-IsHeld :
    (P : Sample → Type 0) (s : Sample) (others : List Sample) (k : DeviceFrequ)
    → P s
    → IsSampled (s ∷ others)
    → IsHeld P (s ∷ others) k
    → IsHeld P others (add_sample k s)
unfolding add_timer_sample
add_sample-IsHeld P s others k p (order, bound, later, sampled) held =
    if-lem (IsHeld P others) (k.ref_timestamp_after_us == 0) (λ h. started)
      (λ h.
        if-lem (IsHeld P others) (ltb ((k.ref_timestamp_before_us + 4000000) % 2 ^ 64) s.after_us)
          (λ far. started)
          (λ near. elim held [
            | inl (e, z) ↦ ground arith
            | inr (r, pr, ref, (rs, rest), pair) ↦ inr (
              r,
              pr,
              record {
                value = ref.value;
                before = ref.before;
                after = ref.after;
                taken = ref.taken;
                bound = ref.bound;
              },
              rest,
              inr (
                s,
                p,
                record {
                  value = refl;
                  before = refl;
                  after = refl;
                  taken = order;
                  bound = omega arith;
                },
                rs,
                is_near r ref near,
              ),
            )
          ]))
  where
    started : IsHeld P others (set_ref (s.ticks % 2 ^ 32) s.before_us s.after_us k)
    started = inr (
      s,
      p,
      record { value = refl; before = refl; after = refl; taken = order; bound = bound },
      later,
      inl refl,
    )

    is_near :
        (r : Sample)
        → IsRef k r
        → ltb ((k.ref_timestamp_before_us + 4000000) % 2 ^ 64) s.after_us ≡ false
        → s.after_us ≤ r.before_us + 4000000
    is_near r ref h =
        let before = ref.before in let taken = ref.taken in let end = ref.bound in ground arith

pub add_samples-IsHeld :
    (P : Sample → Type 0) (samples : List Sample) (k : DeviceFrequ)
    → All P samples
    → IsSampled samples
    → IsHeld P samples k
    → IsHeld P [] (add_samples k samples)
unfolding add_samples
add_samples-IsHeld P [] k p sampled held = held
add_samples-IsHeld P (s ∷ others) k (p, ps) sampled held =
    add_samples-IsHeld P others (add_sample k s) ps sampled.3
      (add_sample-IsHeld P s others k p sampled held)
