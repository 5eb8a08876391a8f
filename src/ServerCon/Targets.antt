-- ===== src/ServerCon/Targets.antt =====
-- The list of targets of CTasPktHandlerServerCon (src/tas_client/tas_pkt_handler_server_con.cpp).
use tas_client_api.Prelude.{
  ℕ, ◌+◌, ◌-◌, ◌*◌, ◌/◌, Bool, ◌&&◌, ◌||◌, not, Option, none, some, Mem, ltb, ◌==◌, ◌!=◌,
  if◌then◌else◌, byte0, byte1, byte2, byte3, bytes4, sub32, copy_words,
}
use tas_client_api.Pkt.Cmd
use tas_client_api.Pkt.Err
use tas_client_api.ErrorInfo.{TasReturn, ErrorInfo, no_error}
use tas_client_api.Base.Errors.{err_connection_protocol}
use tas_client_api.ServerCon.Handler.{
  ServerCon, set_error, set_request, err_server_is_locked, num_target_max, target_info_size,
}
use tas_client_api.ServerCon.Connecting.{blank}

unfoldable pub get_pkt_rq_get_targets : ℕ → ServerCon → ServerCon
get_pkt_rq_get_targets start_index c =
    set_request (blank 4 (bytes4 (4 / 4 - 1) Cmd.pl1_get_targets start_index 0) c.base.rq_buf)
      (record c { start_index = start_index })

-- What the parsers of lists return and set: the number of all entries, and that of the entries of
-- this packet.
pub record Listing : Type 0 where
  pub ret : TasReturn
  pub handler : ServerCon
  pub num : ℕ
  pub num_now : ℕ

abbrev pub no_listing : ErrorInfo → ServerCon → Listing
no_listing ei c = record { ret = ei.tas_err; handler = set_error ei c; num = 0; num_now = 0 }

-- `num_target` of the packet becomes the length of the list with its first part.
abbrev pub lesser : ℕ → ℕ → ℕ
lesser n max = if ltb max n then max else n

abbrev pub note_num_target : Mem ℕ → ServerCon → ServerCon
note_num_target pkt c = record c {
  num_target = if c.start_index == 0 then lesser (byte0 (pkt 2)) num_target_max else c.num_target;
}

-- The targets of a packet without error.
abbrev pub copy_targets : Mem ℕ → ServerCon → ServerCon
copy_targets pkt c = record c {
  target_info =
      copy_words pkt 3 (byte2 (pkt 2) * target_info_size / 4) c.target_info
        (c.start_index * target_info_size / 4);
}

abbrev pub list_targets : Mem ℕ → ServerCon → Listing
list_targets pkt c = record {
  ret = no_error.tas_err;
  handler = set_error no_error c;
  num = c.num_target;
  num_now = byte2 (pkt 2);
}

-- A packet of another part of the list, or of one with another length; and one that goes beyond it.
abbrev pub is_other_part : Mem ℕ → ℕ → ℕ → ℕ → Bool
is_other_part pkt start_index num max =
    byte1 (pkt 2) != start_index || (ltb 0 start_index && ltb num max && byte0 (pkt 2) != num)

abbrev pub is_past_end : Mem ℕ → ℕ → Bool
is_past_end pkt num = byte1 (pkt 2) != 0 && ltb num (byte1 (pkt 2) + byte2 (pkt 2))

-- The tests behind those of the header.
unfoldable pub take_targets : Mem ℕ → ServerCon → Listing
take_targets pkt c =
    if is_other_part pkt c.start_index c.num_target num_target_max
    then no_listing err_connection_protocol c
    else if is_past_end pkt c.num_target
    then no_listing err_connection_protocol c
    else if byte3 (pkt 1) == Err.pl_no_error
    then list_targets pkt (copy_targets pkt (note_num_target pkt c))
    else no_listing err_server_is_locked c

-- The tests of the header.
unfoldable pub check_targets : Mem ℕ → ServerCon → Listing
unfolding take_targets
check_targets pkt c =
    if pkt 0 != 4 + 8 + byte2 (pkt 2) * target_info_size
    then no_listing err_connection_protocol c
    else if byte1 (pkt 1) != Cmd.pl1_get_targets || byte0 (pkt 1) != sub32 (pkt 0) 8 / 4
    then no_listing err_connection_protocol c
    else if not (byte3 (pkt 1) == Err.pl_no_error || byte3 (pkt 1) == Err.pl1_server_locked)
    then no_listing err_connection_protocol c
    else take_targets pkt c

-- A list begins anew with index 0.
unfoldable pub set_pkt_rsp_get_targets : Mem ℕ → ServerCon → Listing
unfolding check_targets
set_pkt_rsp_get_targets pkt c =
    check_targets pkt (record c { num_target = if c.start_index == 0 then 0 else c.num_target })

-- Where the list is, none for a null pointer, and its length.
unfoldable pub get_target_info : ServerCon → Option (Mem ℕ) × ℕ
get_target_info c = (if ltb 0 c.num_target then some c.target_info else none, c.num_target)
