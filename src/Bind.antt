-- ===== src/Bind.antt =====
-- src/bind.rs: the addresses that the sidecar may listen on. Names are resolved by a parameter.
pub mod Guard
use ores_otel_sidecar_rs.Prelude.{
  ℕ, ◌/◌, Bool, true, false, not, ◌&&◌, ◌||◌, Option, none, some, List, [], ◌∷◌, ◌==◌, ◌≟◌,
  if◌then◌else◌, Result, ok, err, ◌>>=◌, Text, text_eq, codes, is_empty,
}
use ores_otel_sidecar_rs.Strings.{trim}
use ores_otel_sidecar_rs.SidecarError.{
  SidecarError, invalid_bind, unresolved_bind, non_loopback_bind,
}

-- The standard library's addresses, as numbers of 32 and of 128 bits.
pub data IpAddr : Type 0 where
  v4 v6 : ℕ → IpAddr

pub record SocketAddr : Type 0 where
  pub ip : IpAddr
  pub port : ℕ

unfoldable pub is_unspecified : IpAddr → Bool
is_unspecified (v4 n) = n == 0
is_unspecified (v6 n) = n == 0

-- 127.0.0.0/8, and ::1
unfoldable pub is_loopback : IpAddr → Bool
is_loopback (v4 n) = n / 16777216 == 127
is_loopback (v6 n) = n == 1

abbrev localhost : IpAddr → IpAddr
localhost (v4 n) = v4 2130706433
localhost (v6 n) = v6 1

-- `parse::<SocketAddr>()` and `to_socket_addrs()`
pub record Resolver : Type 0 where
  pub parse : Text → Option SocketAddr
  pub to_socket_addrs : Text → Option (List SocketAddr)

abbrev pub first_of : Text → Option (List SocketAddr) → Result SidecarError SocketAddr
first_of value none = err (invalid_bind value)
first_of value (some []) = err (unresolved_bind value)
first_of value (some (addr ∷ more)) = ok addr

unfoldable pub parse_socket : Resolver → Text → Result SidecarError SocketAddr
unfolding trim
parse_socket R raw =
    if is_empty (trim raw) then err (unresolved_bind raw) else elim (R.parse (trim raw)) [
      | some parsed ↦ ok parsed
      | none ↦ first_of (trim raw) (R.to_socket_addrs (trim raw))
    ]

unfoldable pub parse_bind : Resolver → Text → Bool → Result SidecarError SocketAddr
unfolding parse_socket is_unspecified is_loopback
parse_bind R raw allow_non_loopback = parse_socket R (trim raw) >>= λ addr.
    if is_unspecified addr.ip || not (is_loopback addr.ip) && not allow_non_loopback
    then err (non_loopback_bind (trim raw))
    else ok addr

unfoldable loopback_probe_addr : Resolver → Text → Result SidecarError SocketAddr
unfolding parse_socket
loopback_probe_addr R raw =
    parse_socket R raw >>= λ addr. ok (record { ip = localhost addr.ip; port = addr.port })

-- Of the variable's value, if it is set.
unfoldable pub allow_non_loopback_from_env : Option Text → Bool
unfolding trim
allow_non_loopback_from_env none = false
allow_non_loopback_from_env (some value) =
    trim value ≟ codes "1"
    || trim value ≟ codes "true"
    || trim value ≟ codes "TRUE"
    || trim value ≟ codes "yes"
    || trim value ≟ codes "YES"
