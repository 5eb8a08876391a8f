-- ===== src/ErrorInfo.antt =====
-- src/tas_client/tas_client.h (`tas_return_et`) and src/tas_client/tas_client_impl.h
-- (`tas_error_info_st` and its two functions). The text that `snprintf` writes stays a format and
-- its arguments.
use tas_client_api.Prelude.{ℕ, String, Bool, true, false, List, []}

pub data TasReturn : Type 0 where
  err_none err_general : TasReturn
  err_fn_not_supported err_fn_usage err_fn_param : TasReturn
  err_server_con err_server_locked : TasReturn
  err_device_access err_device_locked : TasReturn
  err_rw_read err_rw_write : TasReturn
  err_chl_setup err_chl_send err_chl_rcv err_trc_rcv : TasReturn

-- `if (ret)` and `ret != TAS_ERR_NONE`: only TAS_ERR_NONE is 0.
abbrev pub is_err : TasReturn → Bool
is_err err_none = false
is_err _ = true

-- An argument of `snprintf`. `chars` is a string by the codes of its characters, `in_addr_map m` the
-- piece "in addr_map m ", empty for map 0.
pub data Arg : Type 0 where
  num : ℕ → Arg
  str : String → Arg
  chars : List ℕ → Arg
  in_addr_map : ℕ → Arg

-- The text of `info`; `cleared` is the empty string.
pub data Info : Type 0 where
  cleared : Info
  formatted : String → List Arg → Info

pub record ErrorInfo : Type 0 where
  pub info : Info
  pub tas_err : TasReturn

abbrev pub error : String → TasReturn → ErrorInfo
error s e = record { info = formatted s []; tas_err = e }

abbrev pub no_error : ErrorInfo
no_error = record { info = cleared; tas_err = err_none }
