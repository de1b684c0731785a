-- ===== src/SocketAddress.antt =====
-- ip_parse.cpp: from the texts of a protocol, an address and a port to a socket address. inet_pton and
-- the number parser of cppdsaext are parameters.
pub mod Parsing
use universal_fencing_hub.Base.{
  ℕ, ◌%◌, ◌*◌, ◌/◌, ◌+◌, ◌^◌, Bool, List, [], ◌∷◌, Option, none, some, if◌then◌else◌, ◌==◌,
}
use universal_fencing_hub.CharBuffer.{CharBuffer, c_str}
use universal_fencing_hub.Outcome.{InetError}
use universal_fencing_hub.NetClient.{Domain}

-- An int.
pub data ℤ : Type 0 where
  pos negsuc : ℕ → ℤ

-- keyword::PROTO_IPV4 and keyword::PROTO_IPV6
abbrev pub proto_ipv4 : List ℕ
proto_ipv4 = b'I' ∷ b'P' ∷ b'V' ∷ b'4' ∷ []

abbrev pub proto_ipv6 : List ℕ
proto_ipv6 = b'I' ∷ b'P' ∷ b'V' ∷ b'6' ∷ []

-- A value, or the InetException that is thrown.
pub data Parsed (A : Type 0) : Type 0 where
  parsed : A → Parsed A
  refused : InetError → Parsed A

unfoldable pub check_inet_pton_rc : ℤ → Parsed (Unit {0})
check_inet_pton_rc (pos rc) =
    if rc == 0
    then refused InetError.invalid_address
    else (if rc == 1 then parsed tt else refused InetError.unknown)
check_inet_pton_rc (negsuc n) =
    if n == 0 then refused InetError.unsupported_af else refused InetError.unknown

-- htons, on a machine with the low byte first
unfoldable pub htons : ℕ → ℕ
htons port = port % 2 ^ 8 * 2 ^ 8 + port / 2 ^ 8

-- sockaddr_in and sockaddr_in6. The flow info and the scope id of the latter are 0.
pub record SocketAddress : Type 0 where
  pub family : Domain
  pub port : ℕ
  pub addr : List ℕ

unfoldable pub fill_address : Domain → ℕ → List ℕ → Parsed (Unit {0}) → Parsed SocketAddress
unfolding htons
fill_address domain port_number addr (refused e) = refused e
fill_address domain port_number addr (parsed _) =
    parsed (record { family = domain; port = htons port_number; addr = addr })

-- The two ends of parse_port_number, and what follows it.
unfoldable pub checked_port : Option ℕ → Parsed ℕ
checked_port none = refused InetError.invalid_port_number
checked_port (some port_number) =
    if port_number == 0 then refused InetError.invalid_port_number else parsed port_number

unfoldable pub with_port : Domain → ℤ × List ℕ → Parsed ℕ → Parsed SocketAddress
unfolding fill_address check_inet_pton_rc
with_port domain written (refused e) = refused e
with_port domain (rc, addr) (parsed port_number) =
    fill_address domain port_number addr (check_inet_pton_rc rc)

-- `parse` is dsaext::parse_unsigned_int16_c_str, with `none` for its NumberFormatException, and
-- `inet_pton` gives its return code and the address it writes.
module _ {B : Type 0} ⦃cb : CharBuffer B⦄ (parse : List ℕ → Option ℕ)
    (inet_pton : Domain → List ℕ → ℤ × List ℕ) where
  unfoldable pub parse_port_number : B → Parsed ℕ
  unfolding checked_port
  parse_port_number port_string = checked_port (parse (cb.contents port_string))

  -- parse_ipv4 and parse_ipv6
  unfoldable pub parse_ip : Domain → B → B → Parsed SocketAddress
  unfolding parse_port_number with_port
  parse_ip domain ip_string port_string =
      with_port domain (inet_pton domain (c_str (cb.contents ip_string)))
        (parse_port_number port_string)

  unfoldable pub init_socket_address : B → B → B → Parsed SocketAddress
  unfolding parse_ip
  init_socket_address protocol_string ip_string port_string =
      if cb.equals protocol_string proto_ipv6
      then parse_ip Domain.inet6 ip_string port_string
      else (if cb.equals protocol_string proto_ipv4
          then parse_ip Domain.inet4 ip_string port_string
          else refused InetError.unknown_af)
