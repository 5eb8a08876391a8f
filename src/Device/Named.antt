-- ===== src/Device/Named.antt =====
-- The branches of `tasutil_ifx_get_device_name` (src/tas_client/tas_utils_ifx.cpp).
use tas_client_api.Prelude.{
  ℕ, ◌≡◌, ◌≢◌, refl, ◌∙◌, ◌⊎◌, inl, inr, Bool, true, false, [], ◌∷◌, ◌==◌, ◌||◌, if-lem, arith,
}
use tas_client_api.ErrorInfo.{Info, str, num, formatted}
use tas_client_api.Device.Types.{df_tc2x, df_tc3x, df_tc4x, df_unknown}
use tas_client_api.Device.Family.{
  get_device_family, is_aurix, get_device_name_str, ifx_get_device_name,
}
use tas_client_api.Device.Cases.{is_unknown}
use tas_client_api.Device.Classified.{get_device_name_str-is_unknown}

-- Either the device is none of the AURIX families, and its type is the text; or it is one and has
-- the identifier 0, and no name; or its name is the text, and it is not "UNKNOWN".
abbrev pub IsIdentified : ℕ → ℕ → Bool × Info → Type 0
IsIdentified device_type device_id0 r =
    ((is_aurix device_type ≡ false)
      × (r ≡ (false, formatted "device_type 0x%8.8X" (num device_type ∷ []))))
    ⊎ (((is_aurix device_type ≡ true) × (device_id0 ≡ 0) × (r ≡ (true, formatted "UNKNOWN" [])))
        ⊎ ((is_aurix device_type ≡ true)
            × (device_id0 ≢ 0)
            × (r ≡ (true, formatted "%s" (str (get_device_name_str device_type) ∷ [])))
            × (is_unknown (get_device_name_str device_type) ≡ false)))

aurix-known :
    (device_type : ℕ)
    → is_aurix device_type ≡ true
    → (get_device_family device_type == df_unknown) ≡ false
unfolding is_aurix
aurix-known device_type h = ground arith

-- `tasutil_ifx_get_device_name` returns true exactly for a device of the families TC2x, TC3x and
-- TC4x. The text is then "UNKNOWN" if the first word of the identifier is 0, and otherwise the name of
-- the device, which is not "UNKNOWN". For any other device the text is the device type.
pub ifx_get_device_name-IsIdentified :
    (device_type device_id0 : ℕ)
    → IsIdentified device_type device_id0 (ifx_get_device_name device_type device_id0)
unfolding ifx_get_device_name is_aurix
ifx_get_device_name-IsIdentified device_type device_id0 =
    if-lem P (f == df_tc2x || f == df_tc3x || f == df_tc4x)
      (λ yes.
        let aurix : is_aurix device_type ≡ true = ground arith in
        if-lem (λ (i : Info). P (true, i)) (device_id0 == 0)
          (λ z. inr (inl (aurix, ground arith, refl)))
          (λ z. inr (
            inr (
              aurix,
              ground arith,
              refl,
              get_device_name_str-is_unknown device_type ∙ rw (aurix-known device_type aurix) refl,
            ))))
      (λ no. inl (ground arith, refl))
  where
    f : ℕ
    f = get_device_family device_type

    P : Bool × Info → Type 0
    P = IsIdentified device_type device_id0
