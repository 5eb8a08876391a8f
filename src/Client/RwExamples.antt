-- ===== src/Client/RwExamples.antt =====
-- Tests of the client for reading and writing, and the theorems at concrete inputs.
use tas_client_api.Prelude.{inl, ◌≡◌, refl, arith, false, some, none, [], ◌∷◌}
use tas_client_api.ErrorInfo.{err_fn_param}
use tas_client_api.Rw.State.{Rw}
use tas_client_api.Rw.State
use tas_client_api.Rw.Request.{rw_set_trans, set_trans_loop}
use tas_client_api.Rw.TestData.{blank, small_info}
use tas_client_api.Client.MailboxIf.{MailboxIf}
use tas_client_api.Client.Fill.{fill32_trans, fill32_vars, wr_trans, fill_trans}
use tas_client_api.Client.Filled.{apply_all, filled}
use tas_client_api.Client.Filling.{fill32-filled}
use tas_client_api.Client.Rw.{
  ClientRw, Executed, execute_trans, executed, with_info, with_rw, not_added,
}
use tas_client_api.Client.Access.{session_start}
use tas_client_api.Client.Reported.{
  IsReported, execute_trans-IsReported, IsReady, session_start-IsReady,
}
use tas_client_api.Client.TestData.{zeros, words, answering, con}

-- 20 bytes from 0x104 on: a write of 4 bytes, and a fill of 16.
two_parts :
    fill32_trans 0x104 20 1 0x10 0x20 ≡ wr_trans 0x104 1 0x10 ∷ fill_trans 0x108 16 1 0x20 ∷ []
unfolding fill32_trans
two_parts = refl

fill32-filled_example :
    apply_all
      (fill32_vars zeros 0x12345678 0x10 0x20)
      (fill32_trans 0x104 20 1 0x10 0x20)
      zeros
      0x10a
    ≡ filled 0x104 0x12345678 20 zeros 0x10a
fill32-filled_example =
    fill32-filled zeros zeros 0x104 0x12345678 20 1 0x10 0x20 0x10a refl (omega arith) refl
      (omega arith) (omega arith) (omega arith) (inl (omega arith))

-- The third byte of the value stands at 0x10a.
filled_byte : filled 0x104 0x12345678 20 zeros 0x10a ≡ 0x34
filled_byte = refl

-- A server that starts sessions, and a client with one.
abbrev hosting : MailboxIf Unit
hosting = answering (
    words
      (136 ∷ 0x0800_a120 ∷ 0x0000_0101 ∷ 1024 ∷ 1024 ∷ 0 ∷ 0 ∷ 0 ∷ 0 ∷ 0 ∷ 0 ∷ 0xff00_0000 ∷ []))

abbrev client : ClientRw Unit
client = record {
  con = con;
  tph_rw = some (State.construct blank small_info);
  timeout_ms = 20000;
  rsp_buf = zeros;
}

-- No transaction is refused.
abbrev refused : Executed Unit
refused =
    executed err_fn_param
      (with_info (not_added []) (
        with_rw (State.rw_start (record (State.construct blank small_info) { ei = con.ei }))
          client))
      zeros

nothing_to_do : execute_trans hosting zeros [] client ≡ some refused
unfolding execute_trans rw_set_trans set_trans_loop
nothing_to_do = refl

execute_trans-IsReported_example : IsReported hosting client zeros [] refused
execute_trans-IsReported_example =
    execute_trans-IsReported hosting zeros [] client refused nothing_to_do

abbrev newcomer : ClientRw Unit
newcomer = record client { con = record con { session_started = false }; tph_rw = none }

session_start-IsReady_example :
    IsReady newcomer (session_start hosting zeros blank [] [] [] newcomer)
session_start-IsReady_example = session_start-IsReady hosting zeros blank [] [] [] newcomer
