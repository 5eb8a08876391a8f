-- ===== src/Device/Examples.antt =====
-- Tests of the families and the names of devices, and the theorems at concrete inputs.
use tas_client_api.Prelude.{some, none, ◌≡◌, refl}
use tas_client_api.Device.Types.{df_tc3x, df_unknown}
use tas_client_api.Device.Family.{
  is_one_of, switch, get_device_family, get_device_name_str, get_device_family_str,
}
use tas_client_api.Device.Connection.{get_dev_con_feat_str, reset_str, unlock_str, cut_end}
use tas_client_api.Device.Classified.{IsClassified, get_device_family-IsClassified}

-- Step A of the TC39x has a name of its own, step B has not.
step_a : get_device_name_str 0x1020_5083 ≡ "TC39x_A"
unfolding get_device_name_str switch
step_a = refl

step_b : get_device_name_str 0x2020_5083 ≡ "TC39x"
unfolding get_device_name_str switch
step_b = refl

-- The family does not depend on the step.
family_b : get_device_family 0x2020_5083 ≡ df_tc3x
unfolding get_device_family is_one_of
family_b = refl

xmc : get_device_family_str (get_device_family 0x301D_B083) ≡ "XMC4000"
unfolding get_device_family get_device_family_str is_one_of switch
xmc = refl

-- No device.
none_there : get_device_family 0 ≡ df_unknown
unfolding get_device_family is_one_of
none_there = refl

get_device_family-IsClassified_example : IsClassified 0x2020_5083
get_device_family-IsClassified_example = get_device_family-IsClassified 0x2020_5083

-- A reset and the unlocking with a challenge.
features : get_dev_con_feat_str 0x0031 ≡ some "reset, unlocking|CNR"
unfolding get_dev_con_feat_str reset_str unlock_str cut_end
features = refl

-- Of an unknown device that is attached without a reset, no text is made.
unknown_device : get_dev_con_feat_str 0x4000 ≡ none
unfolding get_dev_con_feat_str reset_str unlock_str cut_end
unknown_device = refl
