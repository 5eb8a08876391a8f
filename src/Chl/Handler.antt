-- ===== src/Chl/Handler.antt =====
-- The packets that CTasPktHandlerChl builds and parses (src/tas_client/tas_pkt_handler_chl.cpp).
-- A packet is its words in memory; `host` is the caller's memory.
use tas_client_api.Prelude.{
  ℕ, ◌+◌, ◌*◌, ◌/◌, Bool, not, ◌&&◌, ◌||◌, Option, none, some, [], ◌∷◌, Mem, store, ltb, leb, ◌==◌,
  ◌!=◌, if◌then◌else◌, u16, u32, byte0, byte1, byte2, byte3, half1, bytes4, bytes2_half,
  memcpy_to_words,
}
use tas_client_api.Pkt.Cmd
use tas_client_api.Pkt.Err
use tas_client_api.Pkt.Size
use tas_client_api.ErrorInfo.{TasReturn, err_chl_setup, num, formatted, ErrorInfo, no_error}
use tas_client_api.Base.Errors.{err_connection_protocol}

-- `tas_cht_et`, `tas_chso_et`, `tas_cho_et` and the limits of channels
abbrev pub cht_none : ℕ
cht_none = 0

abbrev pub cht_send : ℕ
cht_send = 1

abbrev pub cht_rcv : ℕ
cht_rcv = 2

abbrev pub cht_bidi : ℕ
cht_bidi = 3

abbrev pub chso_default : ℕ
chso_default = 0

abbrev pub chso_exclusive : ℕ
chso_exclusive = 1

abbrev pub cho_none : ℕ
cho_none = 0

abbrev pub cho_init : ℕ
cho_init = 1

abbrev pub chl_num_max : ℕ
chl_num_max = 32

abbrev pub chl_lowest_priority : ℕ
chl_lowest_priority = 31

pub record Chl : Type 0 where
  pub ei : ErrorInfo
  pub rq_buf : Mem ℕ
  pub max_rq_size : ℕ
  pub max_rsp_size : ℕ
  pub rq_wi_max : ℕ
  pub device_reset_count : ℕ
  pub chl : ℕ
  pub cht : ℕ
  pub chso : ℕ

-- The constructor, on a fresh buffer.
unfoldable pub construct : ErrorInfo → Mem ℕ → Chl
construct ei rq_buf = record {
  ei = ei;
  rq_buf = rq_buf;
  max_rq_size = Size.pl1_chl_max_msg_size + 64;
  max_rsp_size = Size.pl1_chl_max_msg_size + 64;
  rq_wi_max = (Size.pl1_chl_max_msg_size + 64) / 4;
  device_reset_count = 0;
  chl = 0xFF;
  cht = cht_none;
  chso = chso_default;
}

unfoldable pub get_pkt_rq_subscribe : ℕ → ℕ → ℕ → ℕ → Chl → Chl
get_pkt_rq_subscribe chl cht chso prio c = record c {
  chl = chl;
  cht = cht;
  chso = chso;
  rq_buf =
      store (store (store c.rq_buf 0 12) 1 (bytes4 1 Cmd.pl1_chl_subscribe 0 0)) 2
        (bytes4 chl cht chso prio);
}

-- What `set_pkt_rsp_subscribe` returns and sets.
pub record Subscribed : Type 0 where
  pub ret : TasReturn
  pub handler : Chl
  pub cht : ℕ
  pub chso : ℕ
  pub prio : ℕ

abbrev pub no_subscription : ErrorInfo → Chl → Subscribed
no_subscription ei c = record {
  ret = ei.tas_err;
  handler = record c { ei = ei };
  cht = cht_none;
  chso = chso_default;
  prio = 0xFF;
}

-- The error of a subscription that the server refuses.
abbrev pub refused : Chl → ErrorInfo
refused c = record {
  info =
      if c.chso == chso_exclusive
      then formatted
          "ERROR: Could not exclusively subscribe to channel %d since already used by another client"
          (num c.chl ∷ [])
      else formatted
          "ERROR: Could not subscribe to channel %d since exclusively used by another client"
          (num c.chl ∷ []);
  tas_err = err_chl_setup;
}

abbrev pub is_cht : ℕ → Bool
is_cht cht = cht == cht_send || cht == cht_rcv || cht == cht_bidi

-- The tests behind those of the header and of the channel.
unfoldable pub take_subscription : Mem ℕ → Chl → Subscribed
take_subscription pkt c =
    let err = byte3 (pkt 1) in
    let cht = byte1 (pkt 2) in
    if err == Err.pl_no_error && not (is_cht cht)
    then no_subscription err_connection_protocol c
    else if ltb chso_exclusive (byte2 (pkt 2)) || ltb chl_lowest_priority (byte3 (pkt 2))
    then no_subscription err_connection_protocol c
    else if err == Err.pl_no_error
    then record {
      ret = no_error.tas_err;
      handler = record c { ei = no_error };
      cht = cht;
      chso = byte2 (pkt 2);
      prio = byte3 (pkt 2);
    }
    else if err == Err.pl1_cmd_failed && cht != c.cht
    then no_subscription (refused c) c
    else no_subscription err_connection_protocol c

unfoldable pub set_pkt_rsp_subscribe : Mem ℕ → Chl → Subscribed
unfolding take_subscription
set_pkt_rsp_subscribe pkt c =
    if pkt 0 != 12 || byte1 (pkt 1) != Cmd.pl1_chl_subscribe || byte0 (pkt 1) != 1
    then no_subscription err_connection_protocol c
    else if byte0 (pkt 2) != c.chl
    then no_subscription err_connection_protocol c
    else take_subscription pkt c

unfoldable pub get_pkt_rq_unsubscribe : ℕ → Chl → Chl
get_pkt_rq_unsubscribe chl c = record c {
  chl = chl;
  rq_buf = store (store c.rq_buf 0 8) 1 (bytes4 0 Cmd.pl1_chl_unsubscribe chl 0);
}

abbrev leave : ErrorInfo → Chl → TasReturn × Chl
leave ei c = (ei.tas_err, record c { ei = ei })

unfoldable pub set_pkt_rsp_unsubscribe : Mem ℕ → Chl → TasReturn × Chl
set_pkt_rsp_unsubscribe pkt c =
    if pkt 0 != 8
    then leave err_connection_protocol c
    else if byte1 (pkt 1) != Cmd.pl1_chl_unsubscribe
        || byte0 (pkt 1) != 0
        || byte3 (pkt 1) != Err.pl_no_error
    then leave err_connection_protocol c
    else if byte2 (pkt 1) != c.chl
    then leave err_connection_protocol c
    else leave no_error c

-- The header of a message to the device.
abbrev send_header : Mem ℕ → ℕ → ℕ → ℕ → Mem ℕ
send_header buf chl cho len =
    store
      (store (store buf 0 (4 + 8 + u16 ((len + 3) / 4) * 4)) 1 (bytes4 1 Cmd.pl1_chl_msg_c2d 0 0)) 2
      (bytes2_half chl cho len)

unfoldable pub get_pkt_send_msg : Mem ℕ → ℕ → ℕ → ℕ → ℕ → Chl → Chl
get_pkt_send_msg host chl msg msg_length init c = record c {
  chl = 0xFF;
  rq_buf =
      if init != 0
      then memcpy_to_words host msg msg_length
          (store (send_header c.rq_buf chl cho_init (u16 (msg_length + 4))) 3 init) 16
      else memcpy_to_words host msg msg_length (send_header c.rq_buf chl cho_none (u16 msg_length))
          12;
}

-- What `set_pkt_rcv_msg` returns and sets; `msg` is the index of the word that the pointer names.
pub record Received : Type 0 where
  pub ret : TasReturn
  pub handler : Chl
  pub msg : Option ℕ
  pub msg_length : ℕ
  pub init : ℕ

abbrev pub nothing : ErrorInfo → Chl → Received
nothing ei c = record {
  ret = ei.tas_err;
  handler = record c { ei = ei };
  msg = none;
  msg_length = 0;
  init = 0;
}

abbrev count_reset : Chl → Chl
count_reset c = record c { device_reset_count = u32 (c.device_reset_count + 1) }

-- The message of a packet that has passed the tests. The subtraction of 4 wraps for a message that
-- is too short for the word that it announces.
unfoldable pub deliver : Mem ℕ → Chl → Received
deliver pkt c =
    if byte1 (pkt 2) == cho_init
    then record {
      ret = no_error.tas_err;
      handler = record c { ei = no_error };
      msg = some 4;
      msg_length = u16 (half1 (pkt 2) + 65532);
      init = pkt 3;
    }
    else record {
      ret = no_error.tas_err;
      handler = record c { ei = no_error };
      msg = some 3;
      msg_length = half1 (pkt 2);
      init = 0;
    }

-- The tests behind that of the error code.
unfoldable pub take_msg : Mem ℕ → ℕ → Chl → Received
unfolding deliver
take_msg pkt chl c =
    if leb chl_num_max (byte0 (pkt 2)) || ltb cho_init (byte1 (pkt 2))
    then nothing err_connection_protocol c
    else if pkt 0 != 4 + 8 + (half1 (pkt 2) + 3) / 4 * 4
    then nothing err_connection_protocol c
    else if byte0 (pkt 2) != chl
    then nothing err_connection_protocol c
    else deliver pkt c

unfoldable pub set_pkt_rcv_msg : Mem ℕ → ℕ → Chl → Received
unfolding take_msg
set_pkt_rcv_msg pkt chl c =
    let err = byte3 (pkt 1) in
    if pkt 0 == 12 && byte1 (pkt 1) == Cmd.pl1_chl_msg_d2c && err == Err.pl1_dev_reset
    then if byte0 (pkt 1) != 1 || byte0 (pkt 2) != 0 || byte1 (pkt 2) != 0 || half1 (pkt 2) != 0
      then nothing err_connection_protocol c
      else nothing no_error (count_reset c)
    else if ltb (pkt 0) 16
    then nothing err_connection_protocol c
    else if byte1 (pkt 1) != Cmd.pl1_chl_msg_d2c || byte0 (pkt 1) != 1
    then nothing err_connection_protocol c
    else if err == Err.pl1_dev_reset
    then take_msg pkt chl (count_reset c)
    else if err != Err.pl_no_error
    then nothing err_connection_protocol c
    else take_msg pkt chl c
