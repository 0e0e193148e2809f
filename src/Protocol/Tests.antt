-- ===== src/Protocol/Tests.antt =====
-- The protocol's arithmetic and digests at concrete inputs.
use flare_stealthwage.Prelude.{
  ◌+◌, ◌*◌, ◌≤◌, ◌<◌, ◌≡◌, refl, pos, negsuc, [], Text, text, lower, Result, ok, throw, arith,
  parse_decimal,
}
use flare_stealthwage.Prelude.Int.{parse_bigint}
use flare_stealthwage.Prelude.Strings.{trim, starts_with, hex_value}
use flare_stealthwage.Protocol.Viem.{Viem}
use flare_stealthwage.Protocol.Rates.{
  accrued_at, to_scaled_rate, split_dot, pad_fraction, rate_per_day_to_scaled,
}
use flare_stealthwage.Protocol.Accrual.{accrued, accrued_at-eq-accrued, accrued_at_mono}
use flare_stealthwage.Protocol.Scaling.{accrued_at-rate_per_day}
use flare_stealthwage.Protocol.Digests.{
  AuthParams, ChallengeParams, build_auth_digest, build_caller_challenge, withdraw_tag,
}
use flare_stealthwage.Protocol.Binding.{
  SameAuth, SameChallenge, build_auth_digest_injective, build_caller_challenge_injective,
}
use flare_stealthwage.Protocol.Sample.{sample_viem, sample-Laws}

rate_tests :
    (to_scaled_rate (text "1.5") ≡ ok (pos 1_500_000_000_000))
    × (to_scaled_rate (text "7") ≡ ok (pos 7_000_000_000_000))
    × (to_scaled_rate (text "-1.5") ≡ ok (negsuc 499_999_999_999))
unfolding to_scaled_rate split_dot pad_fraction parse_bigint parse_decimal trim starts_with
    hex_value text
rate_tests = (refl, refl, refl)

accrued_at-eq-accrued_example :
    accrued_at (pos 10_000_000_000_000) (pos 1000) (pos 1000) (pos 1040)
    ≡ pos (accrued 10_000_000_000_000 1000 1000 1040)
accrued_at-eq-accrued_example = accrued_at-eq-accrued 10_000_000_000_000 1000 1000 1040

accrued_values :
    (accrued_at (pos 10_000_000_000_000) (pos 1000) (pos 1000) (pos 1040) ≡ pos 400)
    × (accrued_at (pos 10_000_000_000_000) (pos 1000) (pos 1000) (pos 2000) ≡ pos 1000)
    × (accrued_at (pos 10_000_000_000) (pos 100) (pos 50) (pos (50 + 1000)) ≡ pos 10)
unfolding accrued_at
accrued_values = (refl, refl, refl)

accrued_at_mono_example : (400 ≤ 1000) × (1000 ≤ 1000)
accrued_at_mono_example =
    accrued_at_mono 10_000_000_000_000 1000 1000 1040 2000 400 1000 (omega arith) accrued_values.0
      accrued_values.1

accrued_at-rate_per_day_example : (10 * 86_400 ≤ 864 * 1000) × (864 * 1000 < (10 + 2) * 86_400)
unfolding rate_per_day_to_scaled
accrued_at-rate_per_day_example =
    accrued_at-rate_per_day 864 100 50 1000 10_000_000_000 10 refl accrued_values.2 (omega arith)
      (omega arith)

abbrev viem : Viem
viem = sample_viem []

abbrev auth : Text → AuthParams
auth vault = record {
  tag = withdraw_tag viem;
  chain_id = pos 114;
  vault = vault;
  stream_id = pos 7;
  commitment = text "0x0102";
  cumulative_accrued = pos 400;
  deadline = pos 1640;
}

abbrev challenge : Text → ChallengeParams
challenge vault = record {
  chain_id = pos 114;
  vault = vault;
  stream_id = pos 7;
  commitment = text "0x0102";
  purpose = withdraw_tag viem;
  issued_at = pos 1040;
}

abbrev made : Result Text → Text
made (ok s) = s
made (throw x) = []

-- What the digests compute through.
digests : Text → Text × Text
unfolding build_auth_digest build_caller_challenge sample_viem text lower
digests vault = (
  made (build_auth_digest viem (auth vault)),
  made (build_caller_challenge viem (challenge vault)),
)

auth_digest : build_auth_digest viem (auth (text "0xEE")) ≡ ok (digests (text "0xEE")).0
unfolding digests
auth_digest = refl

auth_digest_lower : build_auth_digest viem (auth (text "0xee")) ≡ ok (digests (text "0xEE")).0
unfolding digests
auth_digest_lower = refl

build_auth_digest_injective_example : SameAuth (auth (text "0xEE")) (auth (text "0xee"))
build_auth_digest_injective_example =
    build_auth_digest_injective viem (sample-Laws []) (auth (text "0xEE")) (auth (text "0xee"))
      (digests (text "0xEE")).0 auth_digest auth_digest_lower

challenge_digest :
    build_caller_challenge viem (challenge (text "0xEE")) ≡ ok (digests (text "0xEE")).1
unfolding digests
challenge_digest = refl

challenge_digest_lower :
    build_caller_challenge viem (challenge (text "0xee")) ≡ ok (digests (text "0xEE")).1
unfolding digests
challenge_digest_lower = refl

build_caller_challenge_injective_example :
    SameChallenge (challenge (text "0xEE")) (challenge (text "0xee"))
build_caller_challenge_injective_example =
    build_caller_challenge_injective viem (sample-Laws []) (challenge (text "0xEE"))
      (challenge (text "0xee")) (digests (text "0xEE")).1 challenge_digest challenge_digest_lower
