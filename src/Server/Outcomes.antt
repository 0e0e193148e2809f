-- ===== src/Server/Outcomes.antt =====
-- What the server answers, and when its state can change.
use flare_stealthwage.Prelude.{
  [], ◌≡◌, ◌⊎◌, inl, inr, refl, Option, none, some, Text, text, text_eq, Result, ok, throw, JsError,
  Bool-cases,
}
use flare_stealthwage.Json.Value.{Json, str, get}
use flare_stealthwage.Handler.{Outcome, HandlerResult}
use flare_stealthwage.Framework.Registry.{lookup_value}
use flare_stealthwage.Server.Action.{coalesce}
use flare_stealthwage.Server.Action.{
  json, action_result, Reply, clean_path, Parsed, fine, bad, Incoming, incoming, Handlers, replied,
  dispatched, processed, process_action, process_state, handle_request,
}

module _ {S : Type 0} (syntax_error : Text → JsError) (version : Text) where
  -- Where a reply has another status than 200, which is then 400, 404, 405 or 501, the state is the
  -- one before the request.
  abbrev pub Keeps : S → Result Reply × S → Type 0
  Keeps s (ok (status, _), s') =
      (status ≡ 200)
      ⊎ ((s' ≡ s) × ((status ≡ 400) ⊎ (status ≡ 404) ⊎ (status ≡ 405) ⊎ (status ≡ 501)))
  Keeps s (throw x, s') = Unit

  replied-Keeps :
      (i : Incoming) (r : Outcome × S) (s : S) → Keeps s (replied syntax_error version i r)
  replied-Keeps i (ok r, s') s = inl refl
  replied-Keeps i (throw x, s') s = tt

  dispatched-Keeps :
      (i : Incoming) (found : Result (Option (Json → S → Outcome × S))) (s : S)
      → Keeps s (dispatched syntax_error version i found s)
  dispatched-Keeps i (throw x) s = tt
  dispatched-Keeps i (ok none) s = inr (refl, inr (inr (inr refl)))
  dispatched-Keeps i (ok (some h)) s = replied-Keeps i (h _ s) s

  processed-Keeps :
      (handlers : Handlers S) (p : Parsed Incoming) (s : S)
      → Keeps s (processed syntax_error version handlers p s)
  processed-Keeps handlers (bad reason) s = inr (refl, inl refl)
  processed-Keeps handlers (fine i) s =
      dispatched-Keeps i
        (lookup_value i.op_type (coalesce (get (text "opCommand") i.fixed) (str [])) handlers) s

  -- Whatever the method, the path and the body, a reply with a status other than 200 has status 400,
  -- 404, 405 or 501 and leaves the state as it was: a request that is refused before a handler runs
  -- changes nothing.
  pub handle_request-Keeps :
      (handlers : Handlers S) (state_version : Text) (report : S → Json) (method path body : Text)
      (s : S)
      → Keeps s
          (handle_request syntax_error version handlers state_version report method path body s)
  unfolding handle_request process_action process_state
  handle_request-Keeps handlers state_version report method path body s =
      elim (Bool-cases (text_eq (clean_path path) (text "/action"))) [
        | inl action ↦ rw action (elim (Bool-cases (text_eq method (text "POST"))) [
          | inl post ↦ rw post (processed-Keeps handlers (incoming syntax_error body) s)
          | inr other ↦ rw other (inr (refl, inr (inr (inl refl))))
        ])
        | inr not_action ↦
            rw not_action (elim (Bool-cases (text_eq (clean_path path) (text "/state"))) [
              | inl state ↦ rw state (elim (Bool-cases (text_eq method (text "GET"))) [
                | inl got ↦ rw got (inl refl)
                | inr other ↦ rw other (inr (refl, inr (inr (inl refl))))
              ])
              | inr neither ↦ rw neither (inr (refl, inr (inl refl)))
            ])
      ]

  -- A body that holds an action whose handler is registered is passed to that handler once, with the
  -- original message or "0x"; the reply is the action result of what it returns, with status 200, and
  -- the state is the handler's.
  pub process_action_lem :
      (handlers : Handlers S) (body : Text) (s s' : S) (i : Incoming) (h : Json → S → Outcome × S)
      (r : HandlerResult)
      → incoming syntax_error body ≡ fine i
      → lookup_value i.op_type (coalesce (get (text "opCommand") i.fixed) (str [])) handlers
        ≡ ok (some h)
      → h (coalesce (get (text "originalMessage") i.fixed) (str (text "0x"))) s ≡ (ok r, s')
      → process_action syntax_error version handlers body s
        ≡ (ok (200, json (action_result version i r)), s')
  unfolding process_action
  process_action_lem handlers body s s' i h r parsed found ran = rw (parsed, found, ran)
