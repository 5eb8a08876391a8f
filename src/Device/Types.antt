-- ===== src/Device/Types.antt =====
-- src/tas_client/tas_device_family.h: `tas_device_family_t` and, of `tas_device_type_t`, the
-- identifiers that the functions of the file name.
use tas_client_api.Prelude.{ℕ}

abbrev pub df_unknown : ℕ
df_unknown = 0

abbrev pub df_tc1x : ℕ
df_tc1x = 0x0110

abbrev pub df_tc2x : ℕ
df_tc2x = 0x0120

abbrev pub df_tc3x : ℕ
df_tc3x = 0x0130

abbrev pub df_tc4x : ℕ
df_tc4x = 0x0140

abbrev pub df_xmc1x : ℕ
df_xmc1x = 0x0210

abbrev pub df_xmc4x : ℕ
df_xmc4x = 0x0240

abbrev pub df_psoc6 : ℕ
df_psoc6 = 0x0860

abbrev pub dt_version_mask_out : ℕ
dt_version_mask_out = 0x0FFFFFFF

abbrev pub dt_riderd : ℕ
dt_riderd = 0x00063083

abbrev pub dt_tc1766 : ℕ
dt_tc1766 = 0x000DB083

abbrev pub dt_tc1796 : ℕ
dt_tc1796 = 0x000B8083

abbrev pub dt_tc21x : ℕ
dt_tc21x = 0x00202083

abbrev pub dt_tc22x : ℕ
dt_tc22x = 0x00201083

abbrev pub dt_tc23x : ℕ
dt_tc23x = 0x00200083

abbrev pub dt_tc26x : ℕ
dt_tc26x = 0x001E8083

abbrev pub dt_tc27x : ℕ
dt_tc27x = 0x001DA083

abbrev pub dt_tc29x : ℕ
dt_tc29x = 0x001E9083

abbrev pub dt_tc33x : ℕ
dt_tc33x = 0x0020B083

abbrev pub dt_tc33xe : ℕ
dt_tc33xe = 0x0020C083

abbrev pub dt_tc35x : ℕ
dt_tc35x = 0x0020A083

abbrev pub dt_tc36x : ℕ
dt_tc36x = 0x00209083

abbrev pub dt_tc37x : ℕ
dt_tc37x = 0x00207083

abbrev pub dt_tc37xe : ℕ
dt_tc37xe = 0x00208083

abbrev pub dt_tc38x : ℕ
dt_tc38x = 0x00206083

abbrev pub dt_tc3ex : ℕ
dt_tc3ex = 0x00215083

abbrev pub dt_tc39x : ℕ
dt_tc39x = 0x00205083

abbrev pub dt_tc39x_a : ℕ
dt_tc39x_a = 0x10205083

abbrev pub dt_dapea2g : ℕ
dt_dapea2g = 0x0000DA9E

abbrev pub dt_tc41x : ℕ
dt_tc41x = 0x0021B083

abbrev pub dt_tc42x : ℕ
dt_tc42x = 0x00219083

abbrev pub dt_tc44x : ℕ
dt_tc44x = 0x0021A083

abbrev pub dt_tc45x : ℕ
dt_tc45x = 0x00226083

abbrev pub dt_tc46x : ℕ
dt_tc46x = 0x0021C083

abbrev pub dt_tc48x : ℕ
dt_tc48x = 0x0021D083

abbrev pub dt_tc49aa : ℕ
dt_tc49aa = 0x0021E083

abbrev pub dt_tc49x : ℕ
dt_tc49x = 0x0022B083

abbrev pub dt_tc4dx : ℕ
dt_tc4dx = 0x00225083

abbrev pub dt_tc4rx : ℕ
dt_tc4rx = 0x00223083

abbrev pub dt_xmc1000 : ℕ
dt_xmc1000 = 0x001ED083

abbrev pub dt_xmc1400 : ℕ
dt_xmc1400 = 0x00204083

abbrev pub dt_xmc4100 : ℕ
dt_xmc4100 = 0x001DE083

abbrev pub dt_xmc4200 : ℕ
dt_xmc4200 = 0x001DD083

abbrev pub dt_xmc4400 : ℕ
dt_xmc4400 = 0x001DC083

abbrev pub dt_xmc4500 : ℕ
dt_xmc4500 = 0x001DB083

abbrev pub dt_xmc4800 : ℕ
dt_xmc4800 = 0x001DF083

abbrev pub dt_psoc62 : ℕ
dt_psoc62 = 0x00102069
