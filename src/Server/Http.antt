-- ===== src/Server/Http.antt =====
-- The transport of typescript/src/base/server.ts: `serve`, `corsHeaders` and `send`.
use flare_stealthwage.Prelude.{
  ℕ, Option, none, some, List, [], ◌∷◌, length, if◌then◌else◌, Text, text, text_eq, decimal, Result,
  ok, throw, JsError,
}
use flare_stealthwage.Prelude.Utf8.{utf8_encode}
use flare_stealthwage.Json.Value.{Json}
use flare_stealthwage.Json.Print.{stringify}
use flare_stealthwage.Server.Action.{
  Payload, plain, json, Reply, bad_request, Handlers, handle_request,
}

-- What is written to the socket.
pub record Response : Type 0 where
  pub status : ℕ
  pub headers : List (Text × Text)
  pub body : Text

-- `corsHeaders`, given `process.env.EXTENSION_ALLOW_ORIGIN`.
unfoldable pub cors_headers : Option Text → List (Text × Text)
cors_headers none = []
cors_headers (some []) = []
cors_headers (some (c ∷ s)) =
    (text "Access-Control-Allow-Origin", c ∷ s)
    ∷ (text "Access-Control-Allow-Methods", text "GET, POST, OPTIONS")
    ∷ (text "Access-Control-Allow-Headers", text "Content-Type")
    ∷ (text "Access-Control-Max-Age", text "86400")
    ∷ []

abbrev pub content_type : Payload → Text
content_type (plain s) = text "text/plain"
content_type (json v) = text "application/json"

abbrev pub body_text : Payload → Text
body_text (plain s) = s
body_text (json v) = stringify v

-- `send`
unfoldable pub send : Option Text → Reply → Response
send origin (status, payload) = record {
  status = status;
  headers =
      (text "Content-Type", content_type payload)
      ∷ (text "Content-Length", decimal (length (utf8_encode (body_text payload))))
      ∷ cors_headers origin;
  body = body_text payload;
}

-- An incoming request: `body` is `none` where `readBody` fails.
pub record Request : Type 0 where
  pub method : Text
  pub url : Text
  pub body : Option Text

module _ {S : Type 0} (syntax_error : Text → JsError) (version : Text) where
  abbrev pub sent : Option Text → Result Reply × S → Result Response × S
  sent origin (ok reply, s) = (ok (send origin reply), s)
  sent origin (throw x, s) = (throw x, s)

  abbrev pub served :
      Option Text → Handlers S → Text → (S → Json) → Request → Option Text → S → Result Response × S
  served origin handlers state_version_hex report req none s =
      (ok (send origin (bad_request (text "failed to read body"))), s)
  served origin handlers state_version_hex report req (some body) s = sent origin (
      handle_request syntax_error version handlers state_version_hex report req.method req.url body
        s)

  -- `serve`; an error stands for a promise that is rejected, and no response is written.
  unfoldable pub serve :
      Option Text → Handlers S → Text → (S → Json) → Request → S → Result Response × S
  serve origin handlers state_version_hex report req s =
      if text_eq req.method (text "OPTIONS")
      then (ok (record { status = 204; headers = cors_headers origin; body = [] }), s)
      else served origin handlers state_version_hex report req req.body s
