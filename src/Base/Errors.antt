-- ===== src/Base/Errors.antt =====
-- The error setters of CTasPktHandlerBase (src/tas_client/tas_pkt_handler_base.cpp) and of
-- src/tas_client/tas_client_impl.h: what they leave in the error information, whose code they return.
use tas_client_api.ErrorInfo.{ErrorInfo, error, err_server_con, err_device_access}

-- `mSetPktRspErrConnectionProtocol`
abbrev pub err_connection_protocol : ErrorInfo
err_connection_protocol = error "ERROR: Server connection protocol" err_server_con

-- `mSetPktRspErrDeviceAccess`
abbrev pub err_device_access_failed : ErrorInfo
err_device_access_failed = error "ERROR: Device access failed" err_device_access

-- `tas_client_handle_error_server_con`
abbrev pub err_server_connection : ErrorInfo
err_server_connection = error "ERROR: Server connection" err_server_con
