-- ===== src/Response.antt =====
-- OK, Error and Write (ocpiutil/response.go), and resolveScheme and resolveHost
-- (handlers/versions.go). A reply is the HTTP status, the OCPI status, the message and the data; its
-- timestamp and its request and correlation ids are left out.
use ocpi_mock_hub.Prelude.{ℕ, String, List, [], not, ◌==ₛ◌, if◌then◌else◌}
use ocpi_mock_hub.Json.{Json, null, Bytes}
use ocpi_mock_hub.Paging.{RequestOrigin, PagingHeaders}

-- The Data of a Response: a value, a json.RawMessage, or a list of them with paging headers.
pub data Data : Type 0 where
  value : Json → Data
  raw : Bytes → Data
  page : List Bytes → PagingHeaders → Data

pub record Response : Type 0 where
  pub http_status : ℕ
  pub status_code : ℕ
  pub status_message : String
  pub payload : Data
  pub location : String

abbrev pub ok_with : Data → Response
ok_with d = record {
  http_status = 200;
  status_code = 1000;
  status_message = "";
  payload = d;
  location = "";
}

-- OK(w, r, data)
abbrev pub ok : Json → Response
ok j = ok_with (value j)

-- Error(w, r, httpStatus, ocpiCode, msg)
abbrev pub error : ℕ → ℕ → String → Response
error http_status code message = record {
  http_status = http_status;
  status_code = code;
  status_message = message;
  payload = value null;
  location = "";
}

-- A handler answers, or panics, and middleware.Recoverer turns the panic into a bare 500.
pub data Reply : Type 0 where
  respond : Response → Reply
  panicked : Reply

-- What a handler leaves: the store, the reply, and the HTTP requests that it sends out on the side.
pub record Push : Type 0 where
  pub method : String
  pub url : String
  pub token : String
  pub body : Json

pub record Outcome (S : Type 0) : Type 0 where
  pub state : S
  pub reply : Reply
  pub pushes : List Push

abbrev pub reply_with : {S : Type 0} → S → Response → Outcome S
reply_with s r = record { state = s; reply = respond r; pushes = [] }

unfoldable pub resolve_scheme : RequestOrigin → String
resolve_scheme r =
    if not (r.forwarded_proto ==ₛ "")
    then r.forwarded_proto
    else if r.is_tls
    then "https"
    else "http"

unfoldable pub resolve_host : RequestOrigin → String
resolve_host r =
    if not (r.rally_forwarded_host ==ₛ "")
    then r.rally_forwarded_host
    else if not (r.forwarded_host ==ₛ "")
    then r.forwarded_host
    else r.host
