-- ===== src/Core/Fakes.antt =====
-- `FakeStore` and `FakeTarget` of src/core.rs, the source and target of the fixtures.
use tarvaultsync.Prelude.{ℕ, ◌+◌, Bool, not, ◌==◌, if◌then◌else◌}
use tarvaultsync.Prelude.Text.{text, text_eq}
use tarvaultsync.Prelude.Result.{Result, ok, err}
use tarvaultsync.Core.{
  SourceRef, SourceVersion, SecretPayload, SecretType, plain_text, TargetSpec, ErrorCategory,
  version_conflict, invalid_config, target_error, is_fake_slot,
}

-- `reads` counts the reads of the version and those of the value.
pub record FakeStore : Type 0 where
  pub version : SourceVersion
  pub reads : ℕ × ℕ

pub record FakeTarget : Type 0 where
  pub applies : ℕ
  pub fail : Bool

unfoldable pub fake_get_version :
    SourceRef → FakeStore → Result ErrorCategory SourceVersion × FakeStore
fake_get_version _ s = (ok s.version, record s { reads = (s.reads.0 + 1, s.reads.1) })

unfoldable pub fake_get_value :
    SourceRef → SourceVersion → FakeStore → Result ErrorCategory SecretPayload × FakeStore
fake_get_value _ v s = if not (s.version == v) then (err version_conflict, s) else (
  ok (record { bytes = text "FAKE_PAYLOAD_PROBE"; kind = plain_text }),
  record s { reads = (s.reads.0, s.reads.1 + 1) },
)

unfoldable pub fake_validate : TargetSpec → SecretType → Result ErrorCategory (Unit {0})
fake_validate s _ = if is_fake_slot s then ok tt else err invalid_config

unfoldable pub fake_apply :
    TargetSpec → SecretPayload → FakeTarget → Result ErrorCategory (Unit {0}) × FakeTarget
fake_apply _ _ t =
    if t.fail then (err target_error, t) else (ok tt, record t { applies = t.applies + 1 })
