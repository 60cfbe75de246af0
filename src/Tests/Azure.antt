-- ===== src/Tests/Azure.antt =====
-- The Azure source on two pages of versions.
use tarvaultsync.Prelude.{
  ℕ, zero, suc, ◌+◌, ◌≡◌, refl, ◌≤◌, Option, none, some, true, List, [], ◌∷◌, ◌++◌, nat_eq,
  ℕ_discrete,
}
use tarvaultsync.Prelude.Text.{Text, text, text_eq, is_alphanumeric, starts_with, strip_prefix}
use tarvaultsync.Prelude.Map.{lookup, insert}
use tarvaultsync.Prelude.Result.{ok}
use tarvaultsync.Core.{Bytes, SourceRef, azure, store_eq}
use tarvaultsync.Azure.{
  VersionItem, VersionPage, AzureParts, max_pages, first_url, usable, base_url, version_from_id,
  is_next_of, checked_next, add_item, add_items, select_version, read_pages, get_version,
}
use tarvaultsync.Azure.Names.{valid_source, valid_version}
use tarvaultsync.Core.{SecretPayload, plain_text}
use tarvaultsync.Azure.{SecretResponse, get_value}
use tarvaultsync.Azure.Value.{get_value-Answers}
use tarvaultsync.Azure.Latest.{Reads, IsLatest, get_version-IsLatest, get_version-safe_version}
use tarvaultsync.Core.Labels.{safe_version}

abbrev secret : SourceRef
secret = record { store = azure; connection = text "Vault-1"; entry = text "item" }

abbrev base : Text
base = text "https://vault-1.vault.azure.net/secrets/item"

abbrev old_version : Text
old_version = text "11111111111111111111111111111111"

abbrev new_version : Text
new_version = text "22222222222222222222222222222222"

abbrev item : Text → ℕ → VersionItem
item version created = record {
  id = base ++ (text "/" ++ version);
  attributes = record { created = created; enabled = true; exp = none; nbf = some 3 };
}

abbrev page_at : Bytes → Option VersionPage
page_at [] = none
page_at (zero ∷ _) =
    some (record { value = item new_version 9 ∷ []; next_link = some (text "more") })
page_at (suc _ ∷ _) = some (record { value = item old_version 4 ∷ []; next_link = none })

-- The world counts the requests.
abbrev parts : AzureParts ℕ
parts = record {
  get = λ url w. (ok (w ∷ []), w + 1);
  decode_page = page_at;
  decode_secret = λ bytes. some (record {
    id = base ++ (text "/" ++ new_version);
    attributes = record { created = 9; enabled = true; exp = none; nbf = some 3 };
    value = text "secret";
  });
  parse_url = λ url. some (record {
    scheme = text "https";
    host_str = some (text "vault-1.vault.azure.net");
    port_or_known_default = some 443;
    path = text "/secrets/item/versions";
    username = [];
    password = none;
    fragment = none;
  });
  now = λ w. ok 5;
}

newest_run : get_version parts secret 0 ≡ (ok new_version, 2)
unfolding get_version read_pages select_version add_items add_item version_from_id strip_prefix
    base_url valid_source valid_version usable checked_next is_next_of lookup insert text_eq
    store_eq nat_eq ℕ_discrete is_alphanumeric starts_with
newest_run = refl

get_version-IsLatest_example :
    (base : Text) × (n : ℕ) × (items : List VersionItem) × (base_url secret ≡ ok base)
    × Reads parts base n (first_url base) items 0 2
    × (n ≤ max_pages)
    × IsLatest parts base items new_version 2
get_version-IsLatest_example = get_version-IsLatest parts secret new_version 0 2 newest_run

get_version-safe_version_example :
    (safe_version new_version ≡ true) × (valid_version new_version ≡ true)
get_version-safe_version_example = get_version-safe_version parts secret new_version 0 2 newest_run

abbrev payload : SecretPayload
payload = record { bytes = text "secret"; kind = plain_text }

value_run : get_value parts secret new_version 0 ≡ (ok payload, 1)
unfolding get_value version_from_id strip_prefix base_url valid_source valid_version usable text_eq
    store_eq nat_eq ℕ_discrete is_alphanumeric starts_with
value_run = refl

get_value-Answers_example :
    (base : Text) × (bytes : Bytes) × (response : SecretResponse) × (now : ℕ) × (base_url secret
      ≡ ok base)
    × (parts.get (base ++ text "/" ++ new_version ++ text "?api-version=2025-07-01") 0
        ≡ (ok bytes, 1))
    × (parts.decode_secret bytes ≡ some response)
    × (version_from_id base response.id ≡ ok new_version)
    × (parts.now 1 ≡ ok now)
    × (usable response.attributes now ≡ true)
    × (payload ≡ record { kind = plain_text; bytes = response.value })
get_value-Answers_example = get_value-Answers parts secret new_version payload 0 1 value_run
