-- ===== src/Jtag/Examples.antt =====
-- Tests of the JTAG scans, and the theorems at concrete inputs.
use tas_client_api.Prelude.{◌+◌, ◌≤◌, ◌≡◌, refl, inl, arith, none, some, [], ◌∷◌, length}
use tas_client_api.ErrorInfo.{err_none}
use tas_client_api.Rw.State
use tas_client_api.Rw.TestData.{blank, small_info}
use tas_client_api.Client.MailboxIf.{MailboxIf}
use tas_client_api.Client.Rw.{ClientRw, execute_trans}
use tas_client_api.Client.TestData.{zeros, words, answering, con}
use tas_client_api.Jtag.Scan.{Scan, Places, num_trans_max, build_trans, jtag_scan, head_trans}
use tas_client_api.Jtag.Plan.{plan, IsApart}
use tas_client_api.Jtag.Planned.{IsScan, jtag_scan-IsScan, jtag_scan-fits}

abbrev places : Places
places = record { scans = 0x1000; res_dat = 0x20; zero_data = 0x100000 }

-- 8192 bits and 8 more, in and out.
abbrev two_blocks : Scan
two_blocks = record { tjs = 1; ir_width = 5; num_bits = 8200; data_in = 0x4000; data_out = 0x8000 }

-- 32 zeros in, and out again.
abbrev short : Scan
short = record { tjs = 1; ir_width = 5; num_bits = 32; data_in = 0; data_out = 0x8000 }

two_blocks-IsApart : IsApart 0x100000 two_blocks
two_blocks-IsApart = record {
  in_fits = omega arith;
  out_fits = omega arith;
  apart = inl (omega arith);
}

short-IsApart : IsApart 0x100000 short
short-IsApart = record { in_fits = omega arith; out_fits = omega arith; apart = inl (omega arith) }

abbrev silent : MailboxIf Unit
silent = answering (words (12 ∷ []))

abbrev client : ClientRw Unit
client = record {
  con = con;
  tph_rw = some (State.construct blank small_info);
  timeout_ms = 20000;
  rsp_buf = zeros;
}

planned :
    build_trans places (two_blocks ∷ short ∷ [])
    ≡ some (err_none, plan places (two_blocks ∷ short ∷ []))
unfolding build_trans head_trans
planned = refl

jtag_scan-IsScan_example :
    IsScan silent places zeros
      (two_blocks ∷ short ∷ [])
      client
      (jtag_scan silent places zeros (two_blocks ∷ short ∷ []) client)
jtag_scan-IsScan_example =
    jtag_scan-IsScan silent places zeros (two_blocks ∷ short ∷ []) client
      (two_blocks-IsApart, (short-IsApart, tt))

jtag_scan-fits_example :
    (jtag_scan silent places zeros (short ∷ []) client
      ≡ execute_trans silent zeros (plan places (short ∷ [])) client)
    × (length (plan places (short ∷ [])) + 1 + 14 ≤ num_trans_max 1)
jtag_scan-fits_example =
    jtag_scan-fits silent places zeros (short ∷ []) client (short-IsApart, tt) (omega arith, tt)

-- Twelve blocks, and two scans behind them: 39 transactions, for which the array has 34 places.
abbrev long_scan : Scan
long_scan = record { tjs = 1; ir_width = 5; num_bits = 98304; data_in = 0; data_out = 0x8000 }

overflow : build_trans places (long_scan ∷ short ∷ short ∷ []) ≡ none
unfolding build_trans head_trans
overflow = refl

planned_length : length (plan places (long_scan ∷ short ∷ short ∷ [])) ≡ 39
unfolding head_trans
planned_length = refl

places_left : num_trans_max 3 ≡ 34
places_left = refl
