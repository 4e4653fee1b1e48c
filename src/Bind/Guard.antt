-- ===== src/Bind/Guard.antt =====
-- The addresses that src/bind.rs accepts.
use ores_otel_sidecar_rs.Prelude.{
  ◌≡◌, refl, arith, ◌↔◌, Bool, true, false, Option, none, some, List, [], ◌∷◌, ok, Text, is_empty,
}
use ores_otel_sidecar_rs.Strings.{trim}
use ores_otel_sidecar_rs.Strings.Trim.{trim_idempotent}
use ores_otel_sidecar_rs.Bind.{
  SocketAddr, Resolver, is_unspecified, is_loopback, first_of, parse_socket, parse_bind,
}

-- The address that a text names: parsed, or else the first that it resolves to.
pub data Names (R : Resolver) (text : Text) (addr : SocketAddr) : Type 0 where
  parsed : R.parse text ≡ some addr → Names R text addr
  first :
      (more : List SocketAddr)
      → R.parse text ≡ none
      → R.to_socket_addrs text ≡ some (addr ∷ more)
      → Names R text addr

pub record IsGuarded (R : Resolver) (raw : Text) (allow : Bool) (addr : SocketAddr) : Type 0 where
  pub full : is_empty (trim raw) ≡ false
  pub named : Names R (trim raw) addr
  pub specified : is_unspecified addr.ip ≡ false
  pub local : allow ≡ false → is_loopback addr.ip ≡ true

module _ (R : Resolver) where
  first_of-ok :
      (text : Text) (addr : SocketAddr) (found : Option (List SocketAddr))
      → first_of text found ≡ ok addr
      → (more : List SocketAddr) × (found ≡ some (addr ∷ more))
  first_of-ok text addr none h = cc
  first_of-ok text addr (some []) h = cc
  first_of-ok text addr (some (a ∷ more)) h = (more, ground arith)

  parse_socket-Names :
      (raw : Text) (addr : SocketAddr) (p : Option SocketAddr)
      → R.parse (trim raw) ≡ p
      → parse_socket R raw ≡ ok addr
      → (is_empty (trim raw) ≡ false) × Names R (trim raw) addr
  unfolding parse_socket
  parse_socket-Names raw addr (some a) is h = (ground (arith, is), parsed (ground (arith, is)))
  parse_socket-Names raw addr none is h =
      let (more, found) =
        first_of-ok (trim raw) addr (R.to_socket_addrs (trim raw)) (ground (arith, is)) in
      (ground (arith, is), first more is found)

  parse_socket-ok :
      (raw : Text) (addr : SocketAddr)
      → is_empty (trim raw) ≡ false
      → Names R (trim raw) addr
      → parse_socket R raw ≡ ok addr
  unfolding parse_socket
  parse_socket-ok raw addr full (parsed h) = rw (full, h)
  parse_socket-ok raw addr full (first more h found) = rw (full, h, found)

  parse_bind_ok :
      (raw : Text) (allow : Bool) (addr : SocketAddr)
      → parse_bind R raw allow ≡ ok addr
      → (parse_socket R (trim raw) ≡ ok addr)
        × (is_unspecified addr.ip ≡ false)
        × (allow ≡ false → is_loopback addr.ip ≡ true)
  unfolding parse_bind
  parse_bind_ok raw allow addr h = (ground arith, ground arith, λ e. ground arith)

  parse_bind_accepts :
      (raw : Text) (allow : Bool) (addr : SocketAddr)
      → parse_socket R (trim raw) ≡ ok addr
      → IsGuarded R raw allow addr
      → parse_bind R raw allow ≡ ok addr
  unfolding parse_bind
  parse_bind_accepts raw true addr h g = rw (h, g.specified) (ground arith)
  parse_bind_accepts raw false addr h g = rw (h, g.specified, g.local refl) refl

  -- A bind is accepted exactly if its text, without the blanks around it, is not empty and names an
  -- address, parsed or else the first that it resolves to, which is not unspecified and, unless
  -- others are allowed, a loopback address.
  pub parse_bind_iff :
      (raw : Text) (allow : Bool) (addr : SocketAddr)
      → (parse_bind R raw allow ≡ ok addr) ↔ IsGuarded R raw allow addr
  parse_bind_iff raw allow addr = (
    λ h.
        let (socket, specified, local) = parse_bind_ok raw allow addr h in
        let (full, named) =
          parse_socket-Names (trim raw) addr (R.parse (trim (trim raw))) refl socket in
        record {
          full = rw (← trim_idempotent raw) full;
          named = rw (← trim_idempotent raw) named;
          specified = specified;
          local = local;
        },
    λ g.
        parse_bind_accepts raw allow addr
          (parse_socket-ok (trim raw) addr (rw (trim_idempotent raw) g.full)
            (rw (trim_idempotent raw) g.named))
          g,
  )
