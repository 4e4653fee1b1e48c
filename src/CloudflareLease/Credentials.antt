-- ===== src/CloudflareLease/Credentials.antt =====
-- How src/adapters/process_lifecycle_cloudflare_do.rs makes a transport from a systemd credential.
use ores_otel_sidecar_rs.Actions.{Act, lift, ◌>>=◌, ◌>>◌}
use ores_otel_sidecar_rs.Prelude.{
  ℕ, Bool, true, false, not, ◌&&◌, ◌||◌, Option, none, some, ltb, leb, ◌==◌, ◌≟◌, if◌then◌else◌,
  Result, ok, err, reject_if, Text, text_eq, codes, bytes, byte_len, all, is_empty,
}
use ores_otel_sidecar_rs.Strings.{trim_end}
use ores_otel_sidecar_rs.Paths.{is_absolute, join}
use ores_otel_sidecar_rs.Config.Parse.{is_credential_byte}
use ores_otel_sidecar_rs.Lease.Grant.{LockLibrary}
use ores_otel_sidecar_rs.CloudflareLease.{LeaseHttp, CloudflareDoLeaseTransport}

abbrev pub max_bearer_bytes : ℕ
max_bearer_bytes = 4096

pub data CloudflareDoTransportConfigError : Type 0 where
  invalid_base_url invalid_credential_name missing_credentials_directory
        invalid_credentials_directory credential_unavailable invalid_credential
        http_client_unavailable :
      CloudflareDoTransportConfigError

-- `Display`
unfoldable config_error_text : CloudflareDoTransportConfigError → Text
config_error_text invalid_base_url =
    codes
      "Cloudflare lease endpoint must be an absolute HTTPS URL without credentials, query, or fragment"
config_error_text invalid_credential_name = codes "Cloudflare lease credential name is invalid"
config_error_text missing_credentials_directory =
    codes "systemd CREDENTIALS_DIRECTORY is unavailable"
config_error_text invalid_credentials_directory = codes "systemd credentials directory is invalid"
config_error_text credential_unavailable = codes "Cloudflare lease credential is unavailable"
config_error_text invalid_credential = codes "Cloudflare lease credential is invalid"
config_error_text http_client_unavailable =
    codes "Cloudflare lease HTTP client could not be constructed"

-- What the source reads of a parsed URL.
pub record Url : Type 0 where
  pub scheme : Text
  pub host_str : Option Text
  pub url_path : Text
  pub username : Text
  pub password : Option Text
  pub query : Option Text
  pub fragment : Option Text

-- The options of the client's builder, its timeouts in seconds.
pub record ClientOptions : Type 0 where
  pub https_only : Bool
  pub follows_redirects : Bool
  pub connect_timeout : ℕ
  pub timeout : ℕ

pub data FileKind : Type 0 where
  regular directory symlink other : FileKind

-- The environment, the files, `Url::parse` and the builder of the HTTP client.
pub record CredentialHost (H : LeaseHttp) : Type 1 where
  pub Files : Type 0
  pub credentials_directory : Option Text
  pub symlink_metadata : Text → Files → Result (Unit {0}) FileKind × Files
  pub read_to_string : Text → Files → Result (Unit {0}) Text × Files
  pub parse_url : Text → Option Url
  pub build : ClientOptions → Option H.Client

abbrev pub Configured : Type 0 → Type 0
Configured = Result CloudflareDoTransportConfigError

abbrev pub is_some : Option Text → Bool
is_some none = false
is_some (some t) = true

unfoldable pub acceptable_url : Option Url → Bool
acceptable_url none = false
acceptable_url (some url) = not (
    not (url.scheme ≟ codes "https")
    || not (is_some url.host_str)
    || not (url.url_path ≟ codes "/")
    || not (is_empty url.username)
    || is_some url.password
    || is_some url.query
    || is_some url.fragment)

unfoldable pub validate_credential_name : Text → Configured (Unit {0})
unfolding is_credential_byte
validate_credential_name value =
    reject_if
      (not
          (not (is_empty value) && leb (byte_len value) 128 && all is_credential_byte (bytes value))
        || value ≟ codes "."
        || value ≟ codes "..")
      invalid_credential_name

-- `u8::is_ascii_graphic`
unfoldable pub is_ascii_graphic : ℕ → Bool
is_ascii_graphic b = leb 0x21 b && leb b 0x7E

unfoldable pub validate_bearer : Text → Configured (Unit {0})
unfolding is_ascii_graphic
validate_bearer value =
    reject_if
      (is_empty value
        || ltb max_bearer_bytes (byte_len value)
        || not (all is_ascii_graphic (bytes value)))
      invalid_credential

abbrev pub client_options : ClientOptions
client_options = record {
  https_only = true;
  follows_redirects = false;
  connect_timeout = 3;
  timeout = 5;
}

module _ {H : LeaseHttp} (C : CredentialHost H) where
  unfoldable pub normalize_base_url : Text → Configured Text
  unfolding acceptable_url trim_end
  normalize_base_url value =
      if acceptable_url (C.parse_url value)
      then ok (trim_end (λ c. c == b'/') value)
      else err invalid_base_url

  abbrev Opened : Type 0 → Type 0
  Opened = Act C.Files CloudflareDoTransportConfigError

  abbrev pub only :
      FileKind
      → CloudflareDoTransportConfigError
      → Result (Unit {0}) FileKind × C.Files
      → Configured (Unit {0}) × C.Files
  only regular e (ok regular, w) = (ok tt, w)
  only directory e (ok directory, w) = (ok tt, w)
  only k e (r, w) = (err e, w)

  unfoldable pub validate_credentials_directory : Text → Opened (Unit {0})
  unfolding is_absolute
  validate_credentials_directory path w =
      if not (is_absolute path)
      then (err invalid_credentials_directory, w)
      else only directory invalid_credentials_directory (C.symlink_metadata path w)

  abbrev pub read_or_unavailable : Text → Opened Text
  read_or_unavailable path w = elim (C.read_to_string path w).0 [
    | ok text ↦ (ok text, (C.read_to_string path w).1)
    | err _ ↦ (err credential_unavailable, (C.read_to_string path w).1)
  ]

  module _ (L : LockLibrary) where
    abbrev pub built : Text → Text → Option H.Client → Configured (CloudflareDoLeaseTransport L H)
    built base_url bearer none = err http_client_unavailable
    built base_url bearer (some client) =
        ok (record { client = client; base_url = base_url; bearer = bearer })

    unfoldable pub from_bearer : Text → Text → Configured (CloudflareDoLeaseTransport L H)
    unfolding normalize_base_url
    from_bearer base_url bearer = elim (normalize_base_url base_url) [
      | ok url ↦ built url bearer (C.build client_options)
      | err e ↦ err e
    ]

    -- The bearer that the text of a credential holds, and the transport.
    unfoldable pub from_credential : Text → Text → Configured (CloudflareDoLeaseTransport L H)
    unfolding validate_bearer from_bearer trim_end
    from_credential base_url text =
        let bearer = trim_end (λ c. c == b'\r' || c == b'\n') text in
        elim (validate_bearer bearer) [ ok _ ↦ from_bearer base_url bearer | err e ↦ err e ]

    unfoldable pub from_credential_directory :
        Text → Text → Text → Opened (CloudflareDoLeaseTransport L H)
    unfolding validate_credential_name validate_credentials_directory from_credential join
    from_credential_directory base_url credential_name path = do
      lift (validate_credential_name credential_name)
      validate_credentials_directory path
      λ w. only regular credential_unavailable (C.symlink_metadata (join path credential_name) w)
      text ← read_or_unavailable (join path credential_name)
      lift (from_credential base_url text)

    abbrev in_directory : Text → Text → Option Text → Opened (CloudflareDoLeaseTransport L H)
    in_directory base_url credential_name none w = (err missing_credentials_directory, w)
    in_directory base_url credential_name (some path) w =
        from_credential_directory base_url credential_name path w

    unfoldable pub from_systemd_credential : Text → Text → Opened (CloudflareDoLeaseTransport L H)
    unfolding from_credential_directory
    from_systemd_credential base_url credential_name =
        in_directory base_url credential_name C.credentials_directory
