-- ===== src/CloudflareLease/Trusted.antt =====
-- The transports that src/adapters/process_lifecycle_cloudflare_do.rs makes.
use ores_otel_sidecar_rs.Actions.{lift, and_then_ok, lift_ok}
use ores_otel_sidecar_rs.Prelude.{
  ℕ, ◌≤◌, ◌<◌, ◌≡◌, ◌≢◌, refl, ap, sym, ◌∙◌, true, false, Option, none, some, [], ◌∷◌, arith,
  Result, ok, err, Text, text_eq, codes, bytes, byte_len, all, is_empty, All, all-bytes, ◌==◌, ◌||◌,
}
use ores_otel_sidecar_rs.Strings.Trim.{IsTrimmed, trim_end-IsTrimmed}
use ores_otel_sidecar_rs.Strings.{trim_end}
use ores_otel_sidecar_rs.Paths.{is_absolute, join}
use ores_otel_sidecar_rs.Config.Parse.{is_credential_byte}
use ores_otel_sidecar_rs.Lease.Grant.{LockLibrary}
use ores_otel_sidecar_rs.CloudflareLease.{LeaseHttp, CloudflareDoLeaseTransport}
use ores_otel_sidecar_rs.CloudflareLease.Credentials.{
  Url, FileKind, regular, directory, symlink, other, CredentialHost, Configured, is_some,
  acceptable_url, ClientOptions, validate_credential_name, is_ascii_graphic, validate_bearer,
  client_options, normalize_base_url, only, validate_credentials_directory,
  invalid_credentials_directory, credential_unavailable, read_or_unavailable, built, from_bearer,
  from_credential, from_credential_directory, from_systemd_credential,
  CloudflareDoTransportConfigError, max_bearer_bytes,
}

-- A name that stays in its directory.
pub record IsCredentialName (name : Text) : Type 0 where
  pub full : is_empty name ≡ false
  pub no_slash : All (λ c. c ≢ b'/') name
  pub not_here : name ≢ codes "."
  pub not_up : name ≢ codes ".."

pub record IsBearer (bearer : Text) : Type 0 where
  pub full : is_empty bearer ≡ false
  pub bounded : byte_len bearer ≤ 4096
  pub graphic : All (λ c. (0x21 ≤ c) × (c ≤ 0x7E)) bearer

pub record IsHttpsOrigin (url : Url) : Type 0 where
  pub https : url.scheme ≡ codes "https"
  pub host : is_some url.host_str ≡ true
  pub root : url.url_path ≡ codes "/"
  pub no_user : is_empty url.username ≡ true
  pub no_password : url.password ≡ none
  pub no_query : url.query ≡ none
  pub no_fragment : url.fragment ≡ none

credential_bytes_ascii : (b : ℕ) → is_credential_byte b ≡ true → b < 128
unfolding is_credential_byte
credential_bytes_ascii b h = ground arith

graphic_ascii : (b : ℕ) → is_ascii_graphic b ≡ true → b < 128
unfolding is_ascii_graphic
graphic_ascii b h = ground arith

credential_bytes-All : (s : Text) → all is_credential_byte s ≡ true → All (λ c. c ≢ b'/') s
unfolding is_credential_byte
credential_bytes-All [] h = tt
credential_bytes-All (c ∷ s) h = (λ e. ground (arith, e), credential_bytes-All s (ground arith))

graphic-All : (s : Text) → all is_ascii_graphic s ≡ true → All (λ c. (0x21 ≤ c) × (c ≤ 0x7E)) s
unfolding is_ascii_graphic
graphic-All [] h = tt
graphic-All (c ∷ s) h = (ground arith, graphic-All s (ground arith))

record NameTests (name : Text) : Type 0 where
  full : is_empty name ≡ false
  chars : all is_credential_byte (bytes name) ≡ true
  not_here : name ≢ codes "."
  not_up : name ≢ codes ".."

validate_credential_name-NameTests :
    (name : Text) → validate_credential_name name ≡ ok tt → NameTests name
unfolding validate_credential_name
validate_credential_name-NameTests name h = record {
  full = ground arith;
  chars = ground arith;
  not_here = λ e. ground (arith, e);
  not_up = λ e. ground (arith, e);
}

validate_credential_name-IsCredentialName :
    (name : Text) → validate_credential_name name ≡ ok tt → IsCredentialName name
validate_credential_name-IsCredentialName name h =
    let tests = validate_credential_name-NameTests name h in
    record {
      full = tests.full;
      no_slash =
          credential_bytes-All name
            (all-bytes is_credential_byte credential_bytes_ascii name tests.chars);
      not_here = tests.not_here;
      not_up = tests.not_up;
    }

record BearerTests (bearer : Text) : Type 0 where
  full : is_empty bearer ≡ false
  bounded : byte_len bearer ≤ max_bearer_bytes
  chars : all is_ascii_graphic (bytes bearer) ≡ true

validate_bearer-BearerTests : (bearer : Text) → validate_bearer bearer ≡ ok tt → BearerTests bearer
unfolding validate_bearer
validate_bearer-BearerTests bearer h = ground arith

validate_bearer-IsBearer : (bearer : Text) → validate_bearer bearer ≡ ok tt → IsBearer bearer
validate_bearer-IsBearer bearer h =
    let tests = validate_bearer-BearerTests bearer h in
    record {
      full = tests.full;
      bounded = tests.bounded;
      graphic = graphic-All bearer (all-bytes is_ascii_graphic graphic_ascii bearer tests.chars);
    }

acceptable_url-IsHttpsOrigin :
    (u : Option Url) → acceptable_url u ≡ true → (url : Url) × (u ≡ some url) × IsHttpsOrigin url
unfolding acceptable_url
acceptable_url-IsHttpsOrigin none h = cc
acceptable_url-IsHttpsOrigin (some url) h = (url, refl, ground arith)

-- A client that sends nothing in the clear, goes where it is told, and does not wait for ever.
pub record IsStrict (options : ClientOptions) : Type 0 where
  pub encrypted : options.https_only ≡ true
  pub direct : options.follows_redirects ≡ false
  pub connects : options.connect_timeout ≡ 3
  pub answers : options.timeout ≡ 5

client_options-IsStrict : IsStrict client_options
client_options-IsStrict = record {
  encrypted = refl;
  direct = refl;
  connects = refl;
  answers = refl;
}

module _ {H : LeaseHttp} (C : CredentialHost H) (L : LockLibrary) where
  -- The endpoint and the client of a transport, and the bearer that a credential's text holds.
  pub record IsTransport (base_url text : Text) (t : CloudflareDoLeaseTransport L H) : Type 0 where
    pub bearer : IsBearer t.bearer
    pub held : IsTrimmed (λ c. c == b'\r' || c == b'\n') text t.bearer
    pub url : Url
    pub parsed : C.parse_url base_url ≡ some url
    pub origin : IsHttpsOrigin url
    pub endpoint : IsTrimmed (λ c. c == b'/') base_url t.base_url
    pub options : ClientOptions
    pub strict : IsStrict options
    pub client : C.build options ≡ some t.client

  normalize_base_url_ok :
      (value url : Text)
      → normalize_base_url C value ≡ ok url
      → (acceptable_url (C.parse_url value) ≡ true) × (trim_end (λ c. c == b'/') value ≡ url)
  unfolding normalize_base_url
  normalize_base_url_ok value url h = (ground arith, ground arith)

  built_ok :
      (url bearer : Text) (client : Option H.Client) (t : CloudflareDoLeaseTransport L H)
      → built C L url bearer client ≡ ok t
      → (t.base_url ≡ url) × (t.bearer ≡ bearer) × (client ≡ some t.client)
  built_ok url bearer none t h = cc
  built_ok url bearer (some client) t h = (ground arith, ground arith, ground arith)

  from_bearer_ok :
      (base_url bearer : Text) (t : CloudflareDoLeaseTransport L H) (r : Configured Text)
      → normalize_base_url C base_url ≡ r
      → from_bearer C L base_url bearer ≡ ok t
      → (normalize_base_url C base_url ≡ ok t.base_url)
        × (t.bearer ≡ bearer)
        × (C.build client_options ≡ some t.client)
  unfolding from_bearer
  from_bearer_ok base_url bearer t (err e) is h = ground (arith, is)
  from_bearer_ok base_url bearer t (ok url) is h =
      let (same, holds, client) =
        built_ok url bearer (C.build client_options) t (ground (arith, is)) in
      (is ∙ ap ok (sym same), holds, client)

  from_credential-IsTransport :
      (base_url text bearer : Text) (t : CloudflareDoLeaseTransport L H)
      (checked : Configured (Unit {0}))
      → trim_end (λ c. c == b'\r' || c == b'\n') text ≡ bearer
      → validate_bearer bearer ≡ checked
      → from_credential C L base_url text ≡ ok t
      → IsTransport base_url text t
  unfolding from_credential
  from_credential-IsTransport base_url text bearer t (err e) cut is h = ground (arith, cut, is)
  from_credential-IsTransport base_url text bearer t (ok tt) cut is h =
      let (normal, holds, client) =
        from_bearer_ok base_url bearer t (normalize_base_url C base_url) refl
          (ground (arith, cut, is)) in
      let (accepted, endpoint) = normalize_base_url_ok base_url t.base_url normal in
      let (url, parsed, origin) = acceptable_url-IsHttpsOrigin (C.parse_url base_url) accepted in
      record {
        bearer = rw holds (validate_bearer-IsBearer bearer is);
        held = rw holds (rw (← cut) (trim_end-IsTrimmed (λ c. c == b'\r' || c == b'\n') text));
        url = url;
        parsed = parsed;
        origin = origin;
        endpoint = rw (← endpoint) (trim_end-IsTrimmed (λ c. c == b'/') base_url);
        options = client_options;
        strict = client_options-IsStrict;
        client = client;
      }

  -- The calls of a success: the directory, the file of the name in it, and the file's text.
  pub record IsTrusted (base_url name : Text) (t : CloudflareDoLeaseTransport L H) (w w' : C.Files)
      : Type 0 where
    pub named : IsCredentialName name
    pub path : Text
    pub given : C.credentials_directory ≡ some path
    pub absolute : is_absolute path ≡ true
    pub w1 : C.Files
    pub real_directory : C.symlink_metadata path w ≡ (ok directory, w1)
    pub w2 : C.Files
    pub regular_file : C.symlink_metadata (join path name) w1 ≡ (ok regular, w2)
    pub text : Text
    pub read : C.read_to_string (join path name) w2 ≡ (ok text, w')
    pub transport : IsTransport base_url text t

  only_directory :
      (e : CloudflareDoTransportConfigError) (r : Result (Unit {0}) FileKind × C.Files)
      (w' : C.Files)
      → only C directory e r ≡ (ok tt, w')
      → r ≡ (ok directory, w')
  only_directory e (ok directory, w) w' h = cc
  only_directory e (ok regular, w) w' h = cc
  only_directory e (ok symlink, w) w' h = cc
  only_directory e (ok other, w) w' h = cc
  only_directory e (err x, w) w' h = cc

  only_regular :
      (e : CloudflareDoTransportConfigError) (r : Result (Unit {0}) FileKind × C.Files)
      (w' : C.Files)
      → only C regular e r ≡ (ok tt, w')
      → r ≡ (ok regular, w')
  only_regular e (ok regular, w) w' h = cc
  only_regular e (ok directory, w) w' h = cc
  only_regular e (ok symlink, w) w' h = cc
  only_regular e (ok other, w) w' h = cc
  only_regular e (err x, w) w' h = cc

  validate_credentials_directory_ok :
      (path : Text) (w w' : C.Files)
      → validate_credentials_directory C path w ≡ (ok tt, w')
      → (is_absolute path ≡ true) × (C.symlink_metadata path w ≡ (ok directory, w'))
  unfolding validate_credentials_directory
  validate_credentials_directory_ok path w w' h =
      let absolute : is_absolute path ≡ true = ground arith in
      (
        absolute,
        only_directory invalid_credentials_directory (C.symlink_metadata path w) w' (ground arith),
      )

  read_ok :
      (path text : Text) (w w' : C.Files) (r : Result (Unit {0}) Text)
      → (C.read_to_string path w).0 ≡ r
      → read_or_unavailable C path w ≡ (ok text, w')
      → C.read_to_string path w ≡ (ok text, w')
  read_ok path text w w' (ok t) is h = ground (arith, is)
  read_ok path text w w' (err e) is h = ground (arith, is)

  from_credential_directory_ok :
      (base_url name path : Text) (t : CloudflareDoLeaseTransport L H) (w w' : C.Files)
      → C.credentials_directory ≡ some path
      → from_credential_directory C L base_url name path w ≡ (ok t, w')
      → IsTrusted base_url name t w w'
  unfolding from_credential_directory
  from_credential_directory_ok base_url name path t w w' given h =
      let (_, w0, named, rest0) = and_then_ok (lift (validate_credential_name name)) _ w w' t h in
      let (passed, same0) = lift_ok (validate_credential_name name) w w0 tt named in
      let (_, w1, opened, rest1) =
        and_then_ok (validate_credentials_directory C path) _ w0 w' t rest0 in
      let (absolute, real) = validate_credentials_directory_ok path w0 w1 opened in
      let (_, w2, looked, rest2) =
        and_then_ok
          (λ w. only C regular credential_unavailable (C.symlink_metadata (join path name) w)) _ w1
          w' t rest1 in
      let (text, w3, got, rest3) =
        and_then_ok (read_or_unavailable C (join path name)) _ w2 w' t rest2 in
      let (made, same3) = lift_ok (from_credential C L base_url text) w3 w' t rest3 in
      record {
        named = validate_credential_name-IsCredentialName name passed;
        path = path;
        given = given;
        absolute = absolute;
        w1 = w1;
        real_directory = rw same0 real;
        w2 = w2;
        regular_file =
            only_regular credential_unavailable (C.symlink_metadata (join path name) w1) w2 looked;
        text = text;
        read =
            rw (← same3) (
              read_ok (join path name) text w2 w3 (C.read_to_string (join path name) w2).0 refl
                got);
        transport = from_credential-IsTransport base_url text _ t _ refl refl made;
      }

  -- Whatever the environment and the files answer, a transport is made from the file of a name
  -- without slashes, right in the credentials directory: the directory is given by an absolute path
  -- and real, the file is regular, and its text up to its last line breaks is the bearer, of at
  -- most 4096 graphic ASCII characters. The endpoint is, up to its last slashes, an HTTPS origin
  -- without user, password, query and fragment, and the client was built from options that allow
  -- HTTPS only and no redirect, and give up after 3 seconds of connecting and 5 in all.
  pub from_systemd_credential-IsTrusted :
      (base_url name : Text) (t : CloudflareDoLeaseTransport L H) (w w' : C.Files)
      → from_systemd_credential C L base_url name w ≡ (ok t, w')
      → IsTrusted base_url name t w w'
  unfolding from_systemd_credential
  from_systemd_credential-IsTrusted base_url name t w w' h = go C.credentials_directory refl
    where
      go : (d : Option Text) → C.credentials_directory ≡ d → IsTrusted base_url name t w w'
      go none is = ground (arith, is)
      go (some path) is =
          from_credential_directory_ok base_url name path t w w' is (ground (arith, is))
