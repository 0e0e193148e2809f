-- ===== src/App/Tests.antt =====
-- The registry of the extension at a concrete action.
use flare_stealthwage.Prelude.{◌≡◌}
use flare_stealthwage.Framework.Registry.{lookup, normalize}
use flare_stealthwage.Stream.Sample.{sample_enclave, sample_env}
use flare_stealthwage.App.Dispatch.{
  table, register-eq-table, handler_for, register-dispatches, stream_hex, auth_settle_hex,
}

register-dispatches_example :
    lookup stream_hex auth_settle_hex (table sample_enclave sample_env 1040)
    ≡ handler_for sample_enclave sample_env 1040 (normalize stream_hex) (normalize auth_settle_hex)
register-dispatches_example =
    register-dispatches sample_enclave sample_env 1040 (table sample_enclave sample_env 1040)
      stream_hex auth_settle_hex (register-eq-table sample_enclave sample_env 1040)
