-- ===== src/Device/Family.antt =====
-- src/tas_client/tas_device_family.h: the family and the name of a device type, and
-- src/tas_client/tas_utils_ifx.cpp.
use tas_client_api.Prelude.{
  ℕ, Bool, true, false, List, [], ◌∷◌, ◌==◌, ◌||◌, bit_and, String, if◌then◌else◌,
}
use tas_client_api.ErrorInfo.{Info, str, num, formatted}
use tas_client_api.Device.Types.{
  df_unknown, df_tc1x, df_tc2x, df_tc3x, df_tc4x, df_xmc1x, df_xmc4x, df_psoc6, dt_version_mask_out,
  dt_riderd, dt_tc1766, dt_tc1796, dt_tc21x, dt_tc22x, dt_tc23x, dt_tc26x, dt_tc27x, dt_tc29x,
  dt_tc33x, dt_tc33xe, dt_tc35x, dt_tc36x, dt_tc37x, dt_tc37xe, dt_tc38x, dt_tc3ex, dt_tc39x,
  dt_tc39x_a, dt_dapea2g, dt_tc41x, dt_tc42x, dt_tc44x, dt_tc45x, dt_tc46x, dt_tc48x, dt_tc49aa,
  dt_tc49x, dt_tc4dx, dt_tc4rx, dt_xmc1000, dt_xmc1400, dt_xmc4100, dt_xmc4200, dt_xmc4400,
  dt_xmc4500, dt_xmc4800, dt_psoc62,
}

-- The cases of a switch that only tells whether one of them applies.
unfoldable pub is_one_of : List ℕ → ℕ → Bool
is_one_of [] d = false
is_one_of (x ∷ xs) d = if d == x then true else is_one_of xs d

-- A switch that returns a value for each case, and `other` by default.
unfoldable pub switch {ℓ} : {A : Type ℓ} → List (ℕ × A) → A → ℕ → A
switch [] other d = other
switch ((x, a) ∷ cases) other d = if d == x then a else switch cases other d

-- The device type without its version.
abbrev pub masked : ℕ → ℕ
masked device_type = bit_and device_type dt_version_mask_out

abbrev pub tc1x : List ℕ
tc1x = dt_riderd ∷ dt_tc1766 ∷ dt_tc1796 ∷ []

abbrev pub check_if_tc1x : ℕ → Bool
check_if_tc1x device_type = is_one_of tc1x (masked device_type)

abbrev pub tc2x : List ℕ
tc2x = dt_tc21x ∷ dt_tc22x ∷ dt_tc23x ∷ dt_tc26x ∷ dt_tc27x ∷ dt_tc29x ∷ []

abbrev pub check_if_tc2x : ℕ → Bool
check_if_tc2x device_type = is_one_of tc2x (masked device_type)

abbrev pub tc3x : List ℕ
tc3x =
    dt_tc33x ∷ dt_tc33xe ∷ dt_tc35x ∷ dt_tc36x ∷ dt_tc37x ∷ dt_tc37xe ∷ dt_tc38x ∷ dt_tc3ex
    ∷ dt_tc39x ∷ dt_dapea2g ∷ []

abbrev pub check_if_tc3x : ℕ → Bool
check_if_tc3x device_type = is_one_of tc3x (masked device_type)

abbrev pub tc4x : List ℕ
tc4x =
    dt_tc41x ∷ dt_tc42x ∷ dt_tc44x ∷ dt_tc45x ∷ dt_tc46x ∷ dt_tc48x ∷ dt_tc49aa ∷ dt_tc49x
    ∷ dt_tc4dx ∷ dt_tc4rx ∷ []

abbrev pub check_if_tc4x : ℕ → Bool
check_if_tc4x device_type = is_one_of tc4x (masked device_type)

abbrev pub xmc1x : List ℕ
xmc1x = dt_xmc1000 ∷ dt_xmc1400 ∷ []

abbrev pub check_if_xmc1x : ℕ → Bool
check_if_xmc1x device_type = is_one_of xmc1x (masked device_type)

abbrev pub xmc4x : List ℕ
xmc4x = dt_xmc4100 ∷ dt_xmc4200 ∷ dt_xmc4400 ∷ dt_xmc4500 ∷ dt_xmc4800 ∷ []

abbrev pub check_if_xmc4x : ℕ → Bool
check_if_xmc4x device_type = is_one_of xmc4x (masked device_type)

abbrev pub psoc6 : List ℕ
psoc6 = dt_psoc62 ∷ []

abbrev pub check_if_psoc6 : ℕ → Bool
check_if_psoc6 device_type = is_one_of psoc6 (masked device_type)

unfoldable pub get_device_family : ℕ → ℕ
get_device_family device_type =
    if check_if_tc4x device_type
    then df_tc4x
    else if check_if_tc3x device_type
    then df_tc3x
    else if check_if_tc2x device_type
    then df_tc2x
    else if check_if_tc1x device_type
    then df_tc1x
    else if check_if_xmc4x device_type
    then df_xmc4x
    else if check_if_xmc1x device_type
    then df_xmc1x
    else if check_if_psoc6 device_type
    then df_psoc6
    else df_unknown

-- `tas_device_family_is_aurix` of a family, and of a device type.
abbrev pub family_is_aurix : ℕ → Bool
family_is_aurix family = family == df_tc4x || family == df_tc3x || family == df_tc2x

unfoldable pub is_aurix : ℕ → Bool
unfolding get_device_family
is_aurix device_type = family_is_aurix (get_device_family device_type)

-- The cases of `tas_get_device_name_str`, given the name of a TC39x.
abbrev pub names : String → List (ℕ × String)
names tc39x =
    (0, "no device")
    ∷ (dt_tc33x, "TC33x")
    ∷ (dt_tc33xe, "TC33xE")
    ∷ (dt_tc35x, "TC35x")
    ∷ (dt_tc36x, "TC36x")
    ∷ (dt_tc37x, "TC37x")
    ∷ (dt_tc37xe, "TC37xE")
    ∷ (dt_tc38x, "TC38x")
    ∷ (dt_tc39x, tc39x)
    ∷ (dt_tc3ex, "TC3Ex")
    ∷ (dt_dapea2g, "TC3x DAPE")
    ∷ (dt_tc41x, "TC41x")
    ∷ (dt_tc42x, "TC42x")
    ∷ (dt_tc44x, "TC44x")
    ∷ (dt_tc45x, "TC45x")
    ∷ (dt_tc46x, "TC46x")
    ∷ (dt_tc48x, "TC48x")
    ∷ (dt_tc49aa, "TC49xA")
    ∷ (dt_tc49x, "TC49x")
    ∷ (dt_tc4dx, "TC4Dx")
    ∷ (dt_tc4rx, "TC4RxA")
    ∷ (dt_tc21x, "TC21x")
    ∷ (dt_tc22x, "TC22x")
    ∷ (dt_tc23x, "TC23x")
    ∷ (dt_tc26x, "TC26x")
    ∷ (dt_tc27x, "TC27x")
    ∷ (dt_tc29x, "TC29x")
    ∷ (dt_riderd, "RiderD")
    ∷ (dt_tc1766, "TC1766")
    ∷ (dt_tc1796, "TC1796")
    ∷ (dt_xmc1000, "XMC1000")
    ∷ (dt_xmc1400, "XMC1400")
    ∷ (dt_xmc4100, "XMC4100")
    ∷ (dt_xmc4200, "XMC4200")
    ∷ (dt_xmc4400, "XMC4400")
    ∷ (dt_xmc4500, "XMC4500")
    ∷ (dt_xmc4800, "XMC4800")
    ∷ (dt_psoc62, "PSoC62")
    ∷ []

unfoldable pub get_device_name_str : ℕ → String
get_device_name_str device_type =
    switch (names (if device_type == dt_tc39x_a then "TC39x_A" else "TC39x")) "UNKNOWN"
      (masked device_type)

-- `tas_get_device_family_str`
unfoldable pub get_device_family_str : ℕ → String
get_device_family_str =
    switch
      ((df_tc4x, "TC4x")
        ∷ (df_tc3x, "TC3x")
        ∷ (df_tc2x, "TC2x")
        ∷ (df_tc1x, "TC1x")
        ∷ (df_xmc4x, "XMC4000")
        ∷ (df_xmc1x, "XMC1000")
        ∷ (df_psoc6, "PSoC6")
        ∷ [])
      "UNKNOWN"

-- `tasutil_ifx_get_device_name`: what it returns, and what it writes to `device_name`, which is
-- shorter than TAS_NAME_LEN32 in each case.
unfoldable pub ifx_get_device_name : ℕ → ℕ → Bool × Info
unfolding get_device_family get_device_name_str
ifx_get_device_name device_type device_id0 =
    let family = get_device_family device_type in
    if family == df_tc2x || family == df_tc3x || family == df_tc4x
    then (
      true,
      if device_id0 == 0
          then formatted "UNKNOWN" []
          else formatted "%s" (str (get_device_name_str device_type) ∷ []),
    )
    else (false, formatted "device_type 0x%8.8X" (num device_type ∷ []))
