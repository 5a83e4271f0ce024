-- ===== src/Wire/Message.antt =====
-- The requests and responses of wire.rs, and its constants.
use abacus_rts.Base.{ℕ, Option, List, ◌++◌}
use abacus_rts.Base.Text.{Str, str}

abbrev pub length_prefix_bytes : ℕ
length_prefix_bytes = 4

abbrev pub max_message_size : ℕ
max_message_size = 4096

abbrev pub protocol_version : ℕ
protocol_version = 1

abbrev pub tag_create_interlock : ℕ
tag_create_interlock = 0x01

abbrev pub tag_attach_interlock : ℕ
tag_attach_interlock = 0x02

abbrev pub tag_created : ℕ
tag_created = 0x81

abbrev pub tag_attached : ℕ
tag_attached = 0x82

abbrev pub tag_error : ℕ
tag_error = 0x88

abbrev pub err_interlock_reaped : ℕ
err_interlock_reaped = 0x01

abbrev pub err_interlock_not_found : ℕ
err_interlock_not_found = 0x02

abbrev pub err_allocation_failed : ℕ
err_allocation_failed = 0x03

abbrev pub err_invalid_request : ℕ
err_invalid_request = 0x04

-- A condition of a barrier on the wire: the watched name, the watched word, the threshold.
abbrev pub WireCondition : Type 0
WireCondition = Str × ℕ × ℕ

pub record CreateInterlock : Type 0 where
  pub name : Str
  pub tier : ℕ
  pub watched_name : Option Str
  pub watched_word : Option ℕ
  pub interval_ns : Option ℕ
  pub conditions : Option (List WireCondition)

pub data Request : Type 0 where
  create_interlock : CreateInterlock → Request
  attach_interlock : (name : Str) → Request

pub data Response : Type 0 where
  created : (id : ℕ) → Response
  attached : (id : ℕ) → Response
  error : (code : ℕ) (message : Str) → Response

unfoldable pub response_interlock_reaped : Response
response_interlock_reaped = error err_interlock_reaped (str "InterlockReaped")

unfoldable pub response_interlock_not_found : Str → Response
response_interlock_not_found name =
    error err_interlock_not_found (str "InterlockNotFound: " ++ name)

unfoldable pub response_allocation_failed : Str → Response
response_allocation_failed msg = error err_allocation_failed msg

unfoldable pub response_invalid_request : Str → Response
response_invalid_request msg = error err_invalid_request msg

unfoldable pub expected_fd_count : Response → ℕ
expected_fd_count (created id) = 1
expected_fd_count (attached id) = 1
expected_fd_count (error code message) = 0
