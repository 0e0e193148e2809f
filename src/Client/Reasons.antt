-- ===== src/Client/Reasons.antt =====
-- The reason of a refusal on its way from a handler to the user: the server's `log` (processAction of
-- typescript/src/base/server.ts), and what frontend/lib/enclave.ts reads from it.
use flare_stealthwage.Prelude.{
  ℕ, ◌≡◌, ◌⊎◌, ◌++◌, decimal, inl, inr, refl, some, true, false, ◌∷◌, Text, text, Result, ok, throw,
  JsError,
}
use flare_stealthwage.Prelude.Strings.{is_space, starts_with, trim_start}
use flare_stealthwage.Server.Action.{log_text}
use flare_stealthwage.Client.Answer.{
  payload_of, unreachable, rejected, failed, Response, AuthorizationRequest, without_error_prefix,
  refusal_detail, read_body, read_response, request_authorization,
}
use flare_stealthwage.Client.Action.{build_action_body}

trim_start-word : (c : ℕ) (s : Text) → is_space c ≡ false → trim_start (c ∷ s) ≡ c ∷ s
unfolding trim_start
trim_start-word c s h = rw h refl

-- The reason that a handler gives, if it does not start with white space, is what the client shows.
refusal_detail-log_text :
    (c : ℕ) (reason : Text)
    → is_space c ≡ false
    → refusal_detail (some (log_text 0 (some (c ∷ reason)))) ≡ c ∷ reason
unfolding refusal_detail without_error_prefix log_text text starts_with trim_start
refusal_detail-log_text c reason h = rw (trim_start-word c reason h) refl

module _ (syntax_error : Text → JsError) where
  -- A refusal whose reason is not empty and starts with no white space reaches the client unchanged:
  -- if the enclave answers with HTTP success, a status 0 and the `log` that the server writes for the
  -- reason, `requestAuthorization` gives the failure "rejected" with this very reason, whatever was
  -- asked.
  pub request_authorization-rejected :
      (post : Text → Result Response) (now : ℕ) (req : AuthorizationRequest) (http_status c : ℕ)
      (reason payload : Text)
      → is_space c ≡ false
      → post (build_action_body now (text "STREAM") req.command (payload_of req))
        ≡ ok (record {
          succeeded = true;
          status = http_status;
          json = ok (record {
            status = 0;
            payload = payload;
            log = some (log_text 0 (some (c ∷ reason)));
          });
        })
      → request_authorization syntax_error post now req ≡ ok (failed (rejected (c ∷ reason)))
  unfolding request_authorization read_response read_body
  request_authorization-rejected post now req http_status c reason payload h e =
      rw (e, refusal_detail-log_text c reason h) refl

  -- Nothing that stands between the page and the enclave is reported as a refusal: a failed request
  -- and an answer without HTTP success give "unreachable".
  pub request_authorization-unreachable :
      (post : Text → Result Response) (now : ℕ) (req : AuthorizationRequest)
      → ((x : JsError) × (post (build_action_body now (text "STREAM") req.command (payload_of req))
            ≡ throw x))
        ⊎ ((res : Response) × (post
                (build_action_body now (text "STREAM") req.command (payload_of req))
              ≡ ok res)
            × (res.succeeded ≡ false))
      → (detail : Text) × (request_authorization syntax_error post now req
          ≡ ok (failed (unreachable detail)))
  unfolding request_authorization read_response
  request_authorization-unreachable post now req (inl (x, e)) = (x.message, rw e refl)
  request_authorization-unreachable post now req (inr (res, e, failing)) =
      (text "HTTP " ++ decimal res.status, rw (e, failing) refl)
