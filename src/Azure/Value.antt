-- ===== src/Azure/Value.antt =====
-- Which payload `get_value` of src/azure.rs gives.
use tarvaultsync.Prelude.{ℕ, ◌≡◌, inl, inr, some, true, ◌++◌, arith, Option-cases}
use tarvaultsync.Prelude.Text.{Text, text, text_eq}
use tarvaultsync.Prelude.Result.{ok, Result-cases}
use tarvaultsync.Core.{Bytes, SourceRef, SourceVersion, SecretPayload, plain_text}
use tarvaultsync.Azure.{AzureParts, SecretResponse, base_url, version_from_id, usable, get_value}

module _ {W : Type 0} (p : AzureParts W) where
  -- `get_value` gives the value of the response to one request, for the version asked for under the
  -- URL of the source; the id in the response names that very version, and it may be used now.
  pub get_value-Answers :
      (source : SourceRef) (version : SourceVersion) (payload : SecretPayload) (w w' : W)
      → get_value p source version w ≡ (ok payload, w')
      → (base : Text) × (bytes : Bytes) × (response : SecretResponse) × (now : ℕ) × (base_url source
          ≡ ok base)
        × (p.get (base ++ text "/" ++ version ++ text "?api-version=2025-07-01") w ≡ (ok bytes, w'))
        × (p.decode_secret bytes ≡ some response)
        × (version_from_id base response.id ≡ ok version)
        × (p.now w' ≡ ok now)
        × (usable response.attributes now ≡ true)
        × (payload ≡ record { kind = plain_text; bytes = response.value })
  unfolding get_value
  get_value-Answers source version payload w w' q = elim (Result-cases (base_url source)) [
    | inr (e, b) ↦ absurd (ground arith)
    | inl (base, b) ↦
        let answer = p.get (base ++ text "/" ++ version ++ text "?api-version=2025-07-01") w in
        elim (Result-cases answer.0) [
          | inr (e, g) ↦ absurd (ground arith)
          | inl (bytes, g) ↦ elim (Option-cases (p.decode_secret bytes)) [
            | inl d ↦ absurd (ground arith)
            | inr (response, d) ↦ elim (Result-cases (version_from_id base response.id)) [
              | inr (e, v) ↦ absurd (ground arith)
              | inl (found, v) ↦ elim (Result-cases (p.now answer.1)) [
                | inr (e, n) ↦ absurd (ground arith)
                | inl (now, n) ↦ (
                  base,
                  bytes,
                  response,
                  now,
                  b,
                  ground arith,
                  d,
                  ground arith,
                  ground arith,
                  ground arith,
                  ground arith,
                )
              ]
            ]
          ]
        ]
  ]
