-- ===== src/Status.antt =====
-- The enumerations that the client's components share: atlas_client/src/utils/atlas_status.h,
-- coap/atlas_coap_response.h and coap/atlas_coap_method.h.

-- `atlas_status_t`
pub data Status : Type 0 where
  ok general_err invalid_hostname invalid_port coap_srv_dtls_not_supported : Status
  coap_invalid_uri invalid_callback invalid_dtls_identity invalid_dtls_psk : Status
  identity_file_error psk_file_error invalid_input corrupted_command socket_error : Status
  corrupted_command_execution_payload deferred_command_execution : Status

pub Status-discrete : Discrete Status
Status-discrete = hlevel

-- `atlas_coap_response_t`
pub data CoapResponse : Type 0 where
  ok not_found not_acceptable_here timeout reset unknown : CoapResponse

-- `atlas_coap_method_t`, less its last name, which only counts the others
pub data CoapMethod : Type 0 where
  get post put delete : CoapMethod
