-- ===== src/Azure.antt =====
-- The Azure Key Vault source, src/azure.rs. The transport, the JSON decoders, the parser of URLs and
-- the clock are parameters.
pub mod Names
pub mod Newest
pub mod Latest
pub mod Value
use tarvaultsync.Prelude.{
  ℕ, zero, suc, ◌+◌, Option, none, some, Bool, true, false, not, ◌&&◌, ◌||◌, List, [], ◌∷◌, ◌++◌,
  ◌==◌, nat_eq, ltb, leb, if◌then◌else◌,
}
use tarvaultsync.Prelude.Text.{Text, text, text_eq, strip_prefix}
use tarvaultsync.Prelude.Map.{Map, insert, has_key}
use tarvaultsync.Prelude.Result.{
  Result, ok, err, ok_or, Action, ◌>>=◌, ◌>>◌, pure, raise, raise_if, lift, gets,
}
use tarvaultsync.Core.{
  Bytes, SourceRef, SourceVersion, SecretPayload, plain_text, ErrorCategory, invalid_config,
  source_error, version_conflict,
}
use tarvaultsync.Azure.Names.{valid_source, valid_version}

abbrev pub max_pages : ℕ
max_pages = 100

pub record Attributes : Type 0 where
  pub created : ℕ
  pub enabled : Bool
  pub exp : Option ℕ
  pub nbf : Option ℕ

abbrev pub is_none_or : (ℕ → Bool) → Option ℕ → Bool
is_none_or f none = true
is_none_or f (some n) = f n

unfoldable pub usable : Attributes → ℕ → Bool
usable a now =
    a.enabled && is_none_or (λ exp. ltb now exp) a.exp && is_none_or (λ nbf. leb nbf now) a.nbf

pub record VersionItem : Type 0 where
  pub id : Text
  pub attributes : Attributes

pub record VersionPage : Type 0 where
  pub value : List VersionItem
  pub next_link : Option Text

pub record SecretResponse : Type 0 where
  pub id : Text
  pub attributes : Attributes
  pub value : Bytes

-- `to_ascii_lowercase`
abbrev pub to_lower : Text → Text
to_lower [] = []
to_lower (b ∷ s) = (if leb b'A' b && leb b b'Z' then b + 32 else b) ∷ to_lower s

unfoldable pub base_url : SourceRef → Result ErrorCategory Text
base_url source =
    if not (valid_source source)
    then err invalid_config
    else ok (
        text "https://"
        ++ to_lower source.connection
        ++ text ".vault.azure.net/secrets/"
        ++ source.entry)

unfoldable pub version_from_id : Text → Text → Result ErrorCategory Text
version_from_id base id = elim (strip_prefix (base ++ text "/") id) [
  | none ↦ err version_conflict
  | some version ↦ if not (valid_version version) then err version_conflict else ok version
]

-- What `checked_next` reads of a `url::Url`
pub record Url : Type 0 where
  pub scheme : Text
  pub host_str : Option Text
  pub port_or_known_default : Option ℕ
  pub path : Text
  pub username : Text
  pub password : Option Text
  pub fragment : Option Text

abbrev pub is_some {ℓ} : {A : Type ℓ} → Option A → Bool
is_some none = false
is_some (some _) = true

abbrev pub same_text : Option Text → Option Text → Bool
same_text none none = true
same_text none (some _) = false
same_text (some _) none = false
same_text (some s) (some t) = s == t

abbrev pub is_https_port : Option ℕ → Bool
is_https_port none = false
is_https_port (some n) = n == 443

abbrev pub is_empty_text : Text → Bool
is_empty_text [] = true
is_empty_text (_ ∷ _) = false

-- The test of `checked_next`, negated
unfoldable pub is_next_of : Url → Url → Bool
unfolding text_eq nat_eq
is_next_of expected url =
    url.scheme == text "https"
    && same_text url.host_str expected.host_str
    && is_https_port url.port_or_known_default
    && url.path == expected.path
    && is_empty_text url.username
    && not (is_some url.password)
    && not (is_some url.fragment)

unfoldable pub checked_next : (Text → Option Url) → Text → Text → Result ErrorCategory (Unit {0})
checked_next parse base next = elim (parse (base ++ text "/versions")) [
  | none ↦ err source_error
  | some expected ↦ elim (parse next) [
    | none ↦ err source_error
    | some url ↦ if not (is_next_of expected url) then err source_error else ok tt
  ]
]

-- The variables `latest` and `ambiguous` of `get_version`
pub record Selection : Type 0 where
  pub latest : Option VersionItem
  pub ambiguous : Bool

unfoldable pub add_item : VersionItem → Selection → Selection
add_item item s = elim s.latest [
  | none ↦ record { latest = some item; ambiguous = false }
  | some old ↦
      if ltb item.attributes.created old.attributes.created
      then s
      else if item.attributes.created == old.attributes.created
      then (if item.id == old.id then s else record s { ambiguous = true })
      else record { latest = some item; ambiguous = false }
]

-- The loop over the items of a page
unfoldable pub add_items : Text → List VersionItem → Selection → Result ErrorCategory Selection
add_items base [] s = ok s
add_items base (item ∷ items) s = elim (version_from_id base item.id) [
  | err e ↦ err e
  | ok _ ↦ add_items base items (add_item item s)
]

-- The transport, the decoders and the clock
pub record AzureParts (W : Type 0) : Type 0 where
  pub get : Text → W → Result ErrorCategory Bytes × W
  pub decode_page : Bytes → Option VersionPage
  pub decode_secret : Bytes → Option SecretResponse
  pub parse_url : Text → Option Url
  pub now : W → Result ErrorCategory ℕ

-- The URL of the first page
abbrev pub first_url : Text → Text
first_url base = base ++ text "/versions?api-version=2025-07-01&maxresults=25"

module _ {W : Type 0} (p : AzureParts W) where
  -- After the last page
  unfoldable pub select_version : Text → Selection → Action W ErrorCategory SourceVersion
  select_version base s = do
    latest ← lift (ok_or s.latest source_error)
    raise_if s.ambiguous version_conflict
    now ← λ w. (p.now w, w)
    raise_if (not (usable latest.attributes now)) source_error
    lift (version_from_id base latest.id)

  -- The loop over the pages, with the number of pages that may still be read
  unfoldable pub read_pages :
      Text → ℕ → Text → Selection → Map (Unit {0}) → Action W ErrorCategory SourceVersion
  read_pages base zero url s seen = raise source_error
  read_pages base (suc pages) url s seen = do
    raise_if (has_key url seen) source_error
    bytes ← p.get url
    page ← lift (ok_or (p.decode_page bytes) source_error)
    s' ← lift (add_items base page.value s)
    elim page.next_link [
      | none ↦ select_version base s'
      | some next ↦
          lift (checked_next p.parse_url base next)
          >> read_pages base pages next s' (insert url tt seen)
    ]

  unfoldable pub get_version : SourceRef → Action W ErrorCategory SourceVersion
  get_version source = do
    base ← lift (base_url source)
    read_pages base max_pages (first_url base) (record { latest = none; ambiguous = false }) []

  unfoldable pub get_value : SourceRef → SourceVersion → Action W ErrorCategory SecretPayload
  get_value source version = do
    base ← lift (base_url source)
    raise_if (not (valid_version version)) invalid_config
    bytes ← p.get (base ++ text "/" ++ version ++ text "?api-version=2025-07-01")
    response ← lift (ok_or (p.decode_secret bytes) source_error)
    found ← lift (version_from_id base response.id)
    raise_if (not (found == version)) version_conflict
    now ← λ w. (p.now w, w)
    raise_if (not (usable response.attributes now)) source_error
    pure (record { kind = plain_text; bytes = response.value })
