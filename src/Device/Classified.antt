-- ===== src/Device/Classified.antt =====
-- The families and the names of device types (src/tas_client/tas_device_family.h) against each other.
use tas_client_api.Prelude.{
  ℕ, ◌≡◌, refl, ◌∙◌, Bool, true, false, not, ◌&&◌, ◌||◌, List, [], ◌∷◌, ◌==◌, ◌!=◌, String, if-lem,
  inl, inr, Bool-cases, All, arith,
}
use tas_client_api.Device.Types.{
  df_unknown, df_tc1x, df_tc2x, df_tc3x, df_tc4x, df_xmc1x, df_xmc4x, df_psoc6, dt_tc39x_a,
}
use tas_client_api.Device.Family.{
  is_one_of, masked, tc1x, tc2x, tc3x, tc4x, xmc1x, xmc4x, psoc6, check_if_tc1x, check_if_tc2x,
  check_if_tc3x, check_if_tc4x, check_if_xmc1x, check_if_xmc4x, check_if_psoc6, get_device_family,
  names, get_device_name_str,
}
use tas_client_api.Device.Cases.{
  is_unknown, same, same→eq, every, or-false, every-one_of, every-All, keys, known, Known,
  switch-is_unknown,
}

-- The families with the cases of their tests.
abbrev families : List (List ℕ × ℕ)
families =
    (tc4x, df_tc4x)
    ∷ (tc3x, df_tc3x)
    ∷ (tc2x, df_tc2x)
    ∷ (tc1x, df_tc1x)
    ∷ (xmc4x, df_xmc4x)
    ∷ (xmc1x, df_xmc1x)
    ∷ (psoc6, df_psoc6)
    ∷ []

-- Each test succeeds on `d` exactly if `f` is its family.
abbrev agrees : ℕ → ℕ → Bool
agrees f d = every (λ (c : List ℕ × ℕ). same (is_one_of c.0 d) (f == c.1)) families

-- What holds of each family at the cases of its test, and of none where all tests fail, holds of
-- the family of a device type.
get_device_family-lem :
    (t : ℕ → ℕ → Bool) (device_type : ℕ)
    → All (λ (c : List ℕ × ℕ). every (t c.1) c.0 ≡ true) families
    → (All (λ (c : List ℕ × ℕ). is_one_of c.0 (masked device_type) ≡ false) families
        → t df_unknown (masked device_type) ≡ true)
    → t (get_device_family device_type) (masked device_type) ≡ true
unfolding get_device_family
get_device_family-lem t device_type (h4, (h3, (h2, (h1, (hx4, (hx1, (hp, u))))))) k =
    if-lem T (is_one_of tc4x d) (every-one_of (t df_tc4x) tc4x d h4) (λ n4.
      if-lem T (is_one_of tc3x d) (every-one_of (t df_tc3x) tc3x d h3) (λ n3.
        if-lem T (is_one_of tc2x d) (every-one_of (t df_tc2x) tc2x d h2) (λ n2.
          if-lem T (is_one_of tc1x d) (every-one_of (t df_tc1x) tc1x d h1) (λ n1.
            if-lem T (is_one_of xmc4x d) (every-one_of (t df_xmc4x) xmc4x d hx4) (λ nx4.
              if-lem T (is_one_of xmc1x d) (every-one_of (t df_xmc1x) xmc1x d hx1) (λ nx1.
                if-lem T (is_one_of psoc6 d) (every-one_of (t df_psoc6) psoc6 d hp)
                  (λ np. k (n4, (n3, (n2, (n1, (nx4, (nx1, (np, tt))))))))))))))
  where
    d : ℕ
    d = masked device_type

    T : ℕ → Type 0
    T f = t f d ≡ true

agrees-unknown :
    (d : ℕ)
    → All (λ (c : List ℕ × ℕ). is_one_of c.0 d ≡ false) families
    → agrees df_unknown d ≡ true
agrees-unknown d (n4, (n3, (n2, (n1, (nx4, (nx1, (np, u))))))) =
    rw n4 (rw n3 (rw n2 (rw n1 (rw nx4 (rw nx1 (rw np refl))))))

get_device_family-agrees :
    (device_type : ℕ) → agrees (get_device_family device_type) (masked device_type) ≡ true
unfolding is_one_of
get_device_family-agrees device_type =
    get_device_family-lem agrees device_type
      (refl, (refl, (refl, (refl, (refl, (refl, (refl, tt)))))))
      (agrees-unknown (masked device_type))

-- A number has a name exactly if it is 0 or that of a family.
abbrev is_named : ℕ → ℕ → Bool
is_named f d = same (not (is_one_of (keys (names "")) d)) (f == df_unknown && d != 0)

-- 0, or in the test of a family.
abbrev is_zero_or_known : ℕ → Bool
is_zero_or_known d =
    d == 0
    || (is_one_of tc4x d
        || (is_one_of tc3x d
            || (is_one_of tc2x d
                || (is_one_of tc1x d
                    || (is_one_of xmc4x d || (is_one_of xmc1x d || is_one_of psoc6 d))))))

named-known : (d : ℕ) → is_one_of (keys (names "")) d ≡ true → is_zero_or_known d ≡ true
unfolding is_one_of
named-known d = every-one_of is_zero_or_known (keys (names "")) d refl

-- Only 0 has a name where the tests of all families fail.
named-zero :
    (d : ℕ)
    → All (λ (c : List ℕ × ℕ). is_one_of c.0 d ≡ false) families
    → is_zero_or_known d ≡ (d == 0)
named-zero d (n4, (n3, (n2, (n1, (nx4, (nx1, (np, u))))))) =
    rw n4 (rw n3 (rw n2 (rw n1 (rw nx4 (rw nx1 (rw np (or-false (d == 0))))))))

is_one_of-head : (x : ℕ) (xs : List ℕ) (d : ℕ) → (d == x) ≡ true → is_one_of (x ∷ xs) d ≡ true
unfolding is_one_of
is_one_of-head x xs d e = rw e refl

is_named-unknown :
    (d : ℕ)
    → All (λ (c : List ℕ × ℕ). is_one_of c.0 d ≡ false) families
    → is_named df_unknown d ≡ true
is_named-unknown d fails = elim (Bool-cases (d == 0)) [
  | inl z ↦ let zero : (d != 0) ≡ false = ground arith in rw (is_one_of-head 0 _ d z) (rw zero refl)
  | inr z ↦
      let other : (d != 0) ≡ true = ground arith in
      elim (Bool-cases (is_one_of (keys (names "")) d)) [
        | inl k ↦ let known = named-known d k in let only_zero = named-zero d fails in cc
        | inr k ↦ rw k (rw other refl)
      ]
]

get_device_family-is_named :
    (device_type : ℕ) → is_named (get_device_family device_type) (masked device_type) ≡ true
unfolding is_one_of
get_device_family-is_named device_type =
    get_device_family-lem is_named device_type
      (refl, (refl, (refl, (refl, (refl, (refl, (refl, tt)))))))
      (is_named-unknown (masked device_type))

-- The tests of the families, as they are called.
abbrev tests : List ((ℕ → Bool) × ℕ)
tests =
    (check_if_tc4x, df_tc4x)
    ∷ (check_if_tc3x, df_tc3x)
    ∷ (check_if_tc2x, df_tc2x)
    ∷ (check_if_tc1x, df_tc1x)
    ∷ (check_if_xmc4x, df_xmc4x)
    ∷ (check_if_xmc1x, df_xmc1x)
    ∷ (check_if_psoc6, df_psoc6)
    ∷ []

pub record IsClassified (device_type : ℕ) : Type 0 where
  pub tested :
      All (λ (c : (ℕ → Bool) × ℕ). c.0 device_type ≡ (get_device_family device_type == c.1)) tests
  pub named :
      is_unknown (get_device_name_str device_type)
      ≡ (get_device_family device_type == df_unknown && masked device_type != 0)

names-known : (tc39x : String) → every known (names tc39x) ≡ true → Known (names tc39x)
names-known tc39x e = every-All (λ (c : ℕ × String). is_unknown c.1) (λ c. false) (names tc39x) e

pub get_device_name_str-is_unknown :
    (device_type : ℕ)
    → is_unknown (get_device_name_str device_type)
      ≡ (get_device_family device_type == df_unknown && masked device_type != 0)
unfolding get_device_name_str is_unknown
get_device_name_str-is_unknown device_type =
    switch-is_unknown (names _) (masked device_type) (
      if-lem (λ (s : String). Known (names s)) (device_type == dt_tc39x_a)
        (λ h. names-known "TC39x_A" refl) (λ h. names-known "TC39x" refl))
    ∙ same→eq _ _ (get_device_family-is_named device_type)

-- For every device type, the test of a family succeeds exactly if that family is the device's, so no
-- two tests succeed; and the name is "UNKNOWN" exactly if the family is unknown and the type, without
-- its version, is not 0.
pub get_device_family-IsClassified : (device_type : ℕ) → IsClassified device_type
get_device_family-IsClassified device_type = record {
  tested =
      every-All (λ (c : List ℕ × ℕ). is_one_of c.0 (masked device_type))
        (λ (c : List ℕ × ℕ). get_device_family device_type == c.1) families
        (get_device_family-agrees device_type);
  named = get_device_name_str-is_unknown device_type;
}
