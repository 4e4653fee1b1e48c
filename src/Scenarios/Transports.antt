-- ===== src/Scenarios/Transports.antt =====
-- An authority that answers a request again, a renewal, and a credential on a disk.
use ores_otel_sidecar_rs.Prelude.{
  ℕ, suc, ◌≡◌, refl, arith, true, none, some, [], ◌∷◌, ◌≟◌, if◌then◌else◌, ok, codes, text_eq,
  Text-discrete, bytes,
}
use ores_otel_sidecar_rs.Scenarios.Leases.{SampleGrant, sample_library}
use ores_otel_sidecar_rs.CloudflareLease.Wire.{granted, ManagedGrant, string, number}
use ores_otel_sidecar_rs.CloudflareLease.{
  LeaseHttp, HttpResponse, received, CloudflareDoLeaseTransport, acquire, renew, release,
}
use ores_otel_sidecar_rs.CloudflareLease.Sent.{Renews, Releases, renew_release-Sent}
use ores_otel_sidecar_rs.CloudflareLease.Fresh.{IsFresh, acquire-IsFresh}
use ores_otel_sidecar_rs.CloudflareLease.Credentials.{
  CredentialHost, directory, regular, from_systemd_credential,
}
use ores_otel_sidecar_rs.CloudflareLease.Trusted.{IsTrusted, from_systemd_credential-IsTrusted}
use ores_otel_sidecar_rs.Strings.{parse_unsigned}
use ores_otel_sidecar_rs.Strings.Decode.{decimal}

abbrev answer : HttpResponse
answer = record {
  status = 200;
  content_length = some 2;
  body = received (b'{' ∷ []) ∷ received (b'}' ∷ []) ∷ [];
}

-- The world counts the requests.
abbrev sample_http : LeaseHttp
sample_http = record {
  World = ℕ;
  Client = Unit {0};
  post = λ client url bearer request n. (some answer, suc n);
  acquire_response = λ bs. some (record {
    acquired = true;
    fencing_token = some (string (codes "41"));
    lease_expires_ms = some (number 1000);
    replayed = true;
  });
  renew_response = λ bs. some (record { renewed = true; lease_expires_ms = some (number 9000) });
  release_response = λ bs. some (record { released = true });
}

abbrev sample_transport : CloudflareDoLeaseTransport sample_library sample_http
sample_transport = record {
  client = tt;
  base_url = codes "https://locks.example.test";
  bearer = codes "secret";
}

abbrev sample_grant : ManagedGrant
sample_grant = record { fencing_token = 41; lease_expires_ms = some 9000 }

acquire_replayed :
    acquire sample_library sample_http sample_transport tt
      (codes "k")
      (codes "n")
      (codes "q")
      5000
      0
    ≡ (ok (granted sample_grant), 2)
unfolding acquire decimal parse_unsigned
acquire_replayed = refl

acquire-IsFresh_example :
    IsFresh sample_library sample_http sample_transport tt
      (codes "k")
      (codes "n")
      (codes "q")
      5000
      sample_grant
      0
      2
acquire-IsFresh_example =
    acquire-IsFresh sample_library sample_http sample_transport tt (codes "k") (codes "n")
      (codes "q") 5000 sample_grant 0 2 acquire_replayed

abbrev held_grant : SampleGrant
held_grant = record { granted_key = codes "k"; granted_to = codes "n"; fence = 41; expires = none }

renew_release-Sent_example :
    Renews sample_library sample_http sample_transport held_grant 5000 3
      (renew sample_library sample_http sample_transport tt held_grant 5000 3).1
    × Releases sample_library sample_http sample_transport held_grant 3
        (release sample_library sample_http sample_transport tt held_grant 3).1
renew_release-Sent_example =
    renew_release-Sent sample_library sample_http sample_transport held_grant tt 5000 3 refl
      (omega arith) (omega arith)

abbrev sample_files : CredentialHost sample_http
sample_files = record {
  Files = Unit {0};
  credentials_directory = some (codes "/run/c");
  symlink_metadata = λ path w. (ok (if path ≟ codes "/run/c" then directory else regular), w);
  read_to_string = λ path w. (ok (codes "secret\n"), w);
  parse_url = λ text. some (record {
    scheme = codes "https";
    host_str = some (codes "locks.example.test");
    url_path = codes "/";
    username = [];
    password = none;
    query = none;
    fragment = none;
  });
  build = λ options. some tt;
}

sample_transport_made :
    from_systemd_credential sample_files sample_library
      (codes "https://locks.example.test/")
      (codes "api-token")
      tt
    ≡ (ok sample_transport, tt)
unfolding from_systemd_credential Text-discrete bytes
sample_transport_made = refl

from_systemd_credential-IsTrusted_example :
    IsTrusted sample_files sample_library
      (codes "https://locks.example.test/")
      (codes "api-token")
      sample_transport
      tt
      tt
from_systemd_credential-IsTrusted_example =
    from_systemd_credential-IsTrusted sample_files sample_library
      (codes "https://locks.example.test/") (codes "api-token") sample_transport tt tt
      sample_transport_made
