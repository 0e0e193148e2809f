-- ===== src/Script/Tests.antt =====
-- The scripts in a world where every call succeeds.
use flare_stealthwage.Prelude.{
  ◌≡◌, refl, ap, true, none, some, [], ◌∷◌, length, ltb, if◌then◌else◌, ℤ, pos, Text, text, text_eq,
  ok, plain_error, type_error, throw, arith, parse_decimal, false,
}
use flare_stealthwage.Prelude.Strings.{hex_value, trim, trim_start, starts_with}
use flare_stealthwage.Prelude.Utf8.{utf8_encode, utf8_decode}
use flare_stealthwage.Prelude.Int.{parse_bigint}
use flare_stealthwage.Encoding.Hex.{bytes_to_hex, hex_digits, hex_digit}
use flare_stealthwage.Json.Print.{stringify, quote}
use flare_stealthwage.Json.Parse.{read_json}
use flare_stealthwage.Json.Value.{str, obj, end, field, get, get_field, set_field}
use flare_stealthwage.Json.Bytes.{to_hex_json, parse_json}
use flare_stealthwage.Json.Parse.Characters.{known-AllUnits}
use flare_stealthwage.Json.Parse.Printable.{IsPrintable}
use flare_stealthwage.Protocol.Sample.{sample_viem}
use flare_stealthwage.Client.Action.{build_action_body}
use flare_stealthwage.Protocol.Terms.{encode_terms, commit_to}
use flare_stealthwage.Protocol.Digests.{build_caller_challenge}
use flare_stealthwage.Script.Run.{
  World, Config, History, Exit, done, ◌>>=◌, ask, lift, must, pure, last_created, read_auth,
  buffer_hex,
}
use flare_stealthwage.Script.Envelope.{
  checked_action_body, checked_action_body-eq-build_action_body,
}
use flare_stealthwage.Script.Settle.{Split, test_settle, ask_settle, cancel_and_check}
use flare_stealthwage.Script.Order.{Reached}
use flare_stealthwage.Script.Order.Settling.{settle_plan, test_settle-Reached}
use flare_stealthwage.Script.Order.Touring.{e2e_plan, end_to_end-Reached}
use flare_stealthwage.Script.Order.Showing.{demo_plan, create_demo-Reached}
use flare_stealthwage.Script.EndToEnd.{end_to_end}
use flare_stealthwage.Script.Demo.{create_demo}
use flare_stealthwage.Script.Keys.{
  upsert, replaced, expanded, take_line, drop_line, trim_end, ecies_privkey, has_key, some_line,
  matched, found, captured, generate,
}
use flare_stealthwage.Script.Stored.{matched-upsert}
use flare_stealthwage.Script.Settled.{IsSettled, test_settle-IsSettled}

-- After the twelfth call the balances are those after the cancellation: higher by 7 for the employer and by
-- 3 for the recipient.
abbrev sample_balance : History → Text → ℤ
sample_balance h owner =
    if ltb (length h) 12 then pos 0 else if text_eq owner (text "0xAA") then pos 7 else pos 3

abbrev sample_world : World
sample_world = record {
  send = λ h tx. ok (text "0x01");
  receipt = λ h hash. ok (record { status = text "success"; created = some (pos 7) ∷ [] });
  decimals = λ h. ok 1;
  symbol = λ h. ok (text "FXRP");
  balance = λ h owner. ok (sample_balance h owner);
  stream = λ h id. ok (record { commitment = text "0x02"; cancelled = true });
  sign_message = λ h raw. ok (text "0x03");
  fetch = λ h body. ok (record {
    succeeded = true;
    http_status = 200;
    status = 1;
    payload = to_hex_json (
        obj (
          field (text "cumulativeAccrued") (str (text "3")) (
            field (text "deadline") (str (text "99"))
              (field (text "signature") (str (text "0x04")) end))));
    log = some (text "ok");
    error_message = none;
  });
  now = λ h. ok 1000;
  viem = sample_viem [];
  encrypt = λ bytes. ok bytes;
  syntax_error = plain_error;
}

abbrev sample_config : Config
sample_config = record {
  deployment_key = some (text "key");
  ecies_key = some (text "key");
  vault = text "0xEE";
  chain_id = 114;
  token = text "0xCC";
  employer = text "0xAA";
  recipient = text "0xBB";
  salt = text "0xDD";
}

test_settle-Reached_example : Reached settle_plan 0 4 (test_settle sample_world sample_config [])
test_settle-Reached_example = test_settle-Reached sample_world sample_config

end_to_end-Reached_example :
    Reached e2e_plan 0 5 (end_to_end sample_world sample_config (λ n. text "0.5") [])
end_to_end-Reached_example = end_to_end-Reached sample_world sample_config (λ n. text "0.5")

create_demo-Reached_example :
    Reached demo_plan 0 4 (create_demo sample_world sample_config (λ n d. text "8") [])
create_demo-Reached_example = create_demo-Reached sample_world sample_config (λ n d. text "8")

abbrev settled_run : History × Exit Split
settled_run = test_settle sample_world sample_config []

settled_run_test : settled_run.1 ≡ done (record { refunded = pos 7; paid = pos 3; accrued = pos 3 })
unfolding test_settle ask_settle cancel_and_check ◌>>=◌ ask lift must pure last_created read_auth
    buffer_hex to_hex_json parse_json read_json stringify quote get get_field set_field bytes_to_hex
    hex_digits hex_digit hex_value trim trim_start starts_with utf8_encode utf8_decode text text_eq
    parse_bigint parse_decimal encode_terms commit_to build_caller_challenge sample_viem
settled_run_test = refl

test_settle-IsSettled_example :
    IsSettled sample_world sample_config settled_run.0
      (record { refunded = pos 7; paid = pos 3; accrued = pos 3 })
test_settle-IsSettled_example =
    test_settle-IsSettled sample_world sample_config settled_run.0
      (record { refunded = pos 7; paid = pos 3; accrued = pos 3 })
      (ap (λ (e : Exit Split). (settled_run.0, e)) settled_run_test)

checked_action_body-eq-build_action_body_example :
    checked_action_body 1000 (text "STREAM") (text "AUTH_WITHDRAW") (str (text "x"))
    ≡ ok (build_action_body 1000 (text "STREAM") (text "AUTH_WITHDRAW") (str (text "x")))
checked_action_body-eq-build_action_body_example =
    checked_action_body-eq-build_action_body 1000 (text "STREAM") (text "AUTH_WITHDRAW")
      (str (text "x")) (known-AllUnits (text "STREAM") (unfold text in refl))
      (known-AllUnits (text "AUTH_WITHDRAW") (unfold text in refl))
      (unfold utf8_encode text in omega arith) (unfold utf8_encode text in omega arith)
      (unfold IsPrintable in known-AllUnits (text "x") (unfold text in refl))

abbrev env_before : Text
env_before = text "A=1\nTEE_ECIES_PRIVKEY=\"old\"\nB=2\n"

upsert_test :
    (upsert env_before ecies_privkey (text "0ff") ≡ text "A=1\nTEE_ECIES_PRIVKEY=\"0ff\"\nB=2\n")
    × (upsert (text "A=1\n\n") ecies_privkey (text "0ff") ≡ text "A=1\nTEE_ECIES_PRIVKEY=\"0ff\"\n")
unfolding upsert replaced expanded take_line drop_line trim_end starts_with text
upsert_test = (refl, refl)

-- In a value that replaces another, `replace` reads "$$" as "$".
dollar_test :
    upsert env_before ecies_privkey (text "a$$b") ≡ text "A=1\nTEE_ECIES_PRIVKEY=\"a$b\"\nB=2\n"
unfolding upsert replaced expanded take_line drop_line starts_with text
dollar_test = refl

matched-upsert_example :
    matched (upsert env_before ecies_privkey (text "0ff")) ecies_privkey ≡ ok (text "0ff")
unfolding text
matched-upsert_example = matched-upsert env_before ecies_privkey (text "0ff") (λ e. cc e) refl refl

-- Keys that are set to "" count as set, and then they are not found.
empty_keys_test :
    generate false
      (record { ecies = text "0a"; signer = text "0b" })
      (some (text "TEE_ECIES_PRIVKEY=\"\"\nTEE_SIGNER_PRIVKEY=\"\"\n"))
      none
    ≡ throw (type_error (text "Cannot read properties of null (reading '1')"))
unfolding generate has_key some_line matched found captured starts_with text
empty_keys_test = refl
