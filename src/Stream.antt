-- ===== src/Stream.antt =====
-- `struct ezgrpc2_stream` of core.h, `ezgrpc2_header` of ezgrpc2_header.h, and `stream_new` of
-- internal_helpers.c.
use ezgrpc.Prelude.{ℕ, Bool, false, List, [], Option, none}
use ezgrpc.Wire.{Byte, Message}

pub record Header : Type 0 where
  pub namelen : ℕ
  pub name : List Byte
  pub valuelen : ℕ
  pub value : List Byte

-- `path` is the index of the entry that the pointer into `server->paths` points to. `headers` holds
-- the first `nb_headers` entries of the array, `recv_data` the whole buffer.
pub record Stream : Type 0 where
  pub stream_id : ℕ
  pub time : ℕ
  pub nb_headers : ℕ
  pub headers : List Header
  pub is_method_post : Bool
  pub is_scheme_http : Bool
  pub is_te_trailers : Bool
  pub is_content_grpc : Bool
  pub hcontent_type : Option (List Byte)
  pub hgrpc_encoding : Option (List Byte)
  pub hgrpc_accept_encoding : Option (List Byte)
  pub hgrpc_timeout : Option (List Byte)
  pub path : Option ℕ
  pub recv_len : ℕ
  pub recv_data : List Byte
  pub is_trunc : Bool
  pub trunc_seek : ℕ
  pub lqueue_omessages : List Message

-- `calloc` clears every field; `now` is what `time(NULL)` returns.
unfoldable pub stream_new : (now stream_id : ℕ) → Stream
stream_new now stream_id = record {
  stream_id = stream_id;
  time = now;
  nb_headers = 0;
  headers = [];
  is_method_post = false;
  is_scheme_http = false;
  is_te_trailers = false;
  is_content_grpc = false;
  hcontent_type = none;
  hgrpc_encoding = none;
  hgrpc_accept_encoding = none;
  hgrpc_timeout = none;
  path = none;
  recv_len = 0;
  recv_data = [];
  is_trunc = false;
  trunc_seek = 0;
  lqueue_omessages = [];
}
