-- ===== src/Server/Writing.antt =====
-- internal/app/handlers.go, `writeBytesResponse` and `writeError`, and `SetEventStreamHeaders` of
-- internal/app/connection/eventstream/eventstream.go: what is written to a `http.ResponseWriter`. Of
-- `WriteHeader` the first call counts, and a connection that has been hijacked gets nothing more, as
-- net/http documents; a failed write is only logged.
use event_api.Base.{
  ℕ, [], ◌++◌, Bool, false, if◌then◌else◌, Option, none, some, Bytes, bytes_dec, codes, Map, insert,
}

-- What has been written for the client, and whether the connection has been taken over.
pub record Written : Type 0 where
  pub code : Option ℕ
  pub headers : Map Bytes Bytes
  pub body : Bytes
  pub hijacked : Bool

abbrev pub unwritten : Written
unwritten = record { code = none; headers = []; body = []; hijacked = false }

-- `WriteHeader`
abbrev pub write_header : ℕ → Written → Written
write_header code w =
    if w.hijacked then w else elim w.code [ none ↦ record w { code = some code } | some first ↦ w ]

-- `Write` of the writer.
abbrev pub write_body : Bytes → Written → Written
write_body res w = if w.hijacked then w else record w { body = w.body ++ res }

-- `w.Header().Set`, on names that are in canonical form.
abbrev pub set_header : Bytes → Bytes → Written → Written
set_header name value w = record w { headers = insert bytes_dec name value w.headers }

-- `writeBytesResponse`, and `writeError` with the text of its error.
unfoldable pub write_bytes_response : ℕ → Bytes → Written → Written
write_bytes_response code res w = write_body res (write_header code w)

-- `SetEventStreamHeaders`
unfoldable pub set_event_stream_headers : Written → Written
set_event_stream_headers w =
    let w = set_header (codes "Connection") (codes "close") w in
    let w = set_header (codes "Content-Type") (codes "text/event-stream") w in
    let w = set_header (codes "Cache-Control") (codes "no-cache") w in
    let w = set_header (codes "Transfer-Encoding") (codes "chunked") w in
    let w = set_header (codes "Access-Control-Allow-Origin") (codes "*") w in
    let w = set_header (codes "Access-Control-Allow-Headers") (codes "Cache-Control") w in
    let w = set_header (codes "Access-Control-Allow-Credentials") (codes "true") w in
    let w = set_header (codes "X-Accel-Buffering") (codes "no") w in write_header 200 w
