-- ===== src/SocketAddress/Parsing.antt =====
-- ip_parse.cpp: which texts make a socket address.
use universal_fencing_hub.Base.{
  ℕ, suc, ◌≡◌, refl, sym, ap, subst, ◌∙◌, Bool, true, false, List, Option, none, some, arith, zero,
  bytes_eq, bytes_eq_sound, if◌then◌else◌,
}
use universal_fencing_hub.CharBuffer.{CharBuffer, c_str}
use universal_fencing_hub.Outcome.{InetError}
use universal_fencing_hub.NetClient.{Domain}
use universal_fencing_hub.SocketAddress.{
  ℤ, pos, negsuc, proto_ipv4, proto_ipv6, Parsed, SocketAddress, parsed, refused, htons,
  parse_port_number, parse_ip, checked_port, with_port, fill_address, check_inet_pton_rc,
  init_socket_address,
}

-- The protocol's name.
abbrev pub keyword : Domain → List ℕ
keyword Domain.inet4 = proto_ipv4
keyword Domain.inet6 = proto_ipv6

checked_port-suc : (port : ℕ) → checked_port (some (suc port)) ≡ parsed (suc port)
unfolding checked_port
checked_port-suc port = ground arith

abbrev address_or : SocketAddress → Parsed SocketAddress → SocketAddress
address_or a (parsed b) = b
address_or a (refused e) = a

parsed-injective : (a b : SocketAddress) → parsed a ≡ parsed b → a ≡ b
parsed-injective a b e = ap (address_or a) e

filled-only :
    (domain : Domain) (port : ℕ) (addr : List ℕ) (rc : ℤ) (address : SocketAddress)
    → fill_address domain port addr (check_inet_pton_rc rc) ≡ parsed address
    → (address.family ≡ domain) × (rc ≡ pos 1) × (address.addr ≡ addr) × (address.port ≡ htons port)
unfolding fill_address check_inet_pton_rc
filled-only domain port addr (pos zero) address h = cc
filled-only domain port addr (pos (suc zero)) address h =
    let same = parsed-injective _ address h in
    (ap (λ a. a.family) (sym same), refl, ap (λ a. a.addr) (sym same), ap (λ a. a.port) (sym same))
filled-only domain port addr (pos (suc (suc n))) address h = ground arith
filled-only domain port addr (negsuc zero) address h = cc
filled-only domain port addr (negsuc (suc n)) address h = ground arith

with_port-only :
    (domain : Domain) (written : ℤ × List ℕ) (number : Option ℕ) (address : SocketAddress)
    → with_port domain written (checked_port number) ≡ parsed address
    → (port : ℕ) × (address.family ≡ domain)
      × (number ≡ some (suc port))
      × (written ≡ (pos 1, address.addr))
      × (address.port ≡ htons (suc port))
unfolding with_port checked_port
with_port-only domain written none address h = cc
with_port-only domain written (some zero) address h = cc
with_port-only domain (rc, addr) (some (suc port)) address h =
    let (family, one, bytes, stored) =
      filled-only domain (suc port) addr rc address
        (subst (λ t. with_port domain (rc, addr) t ≡ parsed address) (checked_port-suc port) h) in
    (port, family, refl, ap2 one (sym bytes), stored)
  where
    ap2 : {r q : ℤ} {x y : List ℕ} → r ≡ q → x ≡ y → ◌≡◌ {A = ℤ × List ℕ} (r, x) (q, y)
    ap2 e f = cc

module _ {B : Type 0} ⦃cb : CharBuffer B⦄ (parse : List ℕ → Option ℕ)
    (inet_pton : Domain → List ℕ → ℤ × List ℕ) where
  -- The protocol picks the address family.
  init_socket_address-parse_ip :
      (domain : Domain) (protocol_string ip_string port_string : B)
      → cb.contents protocol_string ≡ keyword domain
      → init_socket_address parse inet_pton protocol_string ip_string port_string
        ≡ parse_ip parse inet_pton domain ip_string port_string
  unfolding init_socket_address
  init_socket_address-parse_ip Domain.inet4 protocol ip port e =
      let no = cb.equals_lem protocol proto_ipv6 ∙ ap (λ t. bytes_eq t proto_ipv6) e in
      let yes = cb.equals_lem protocol proto_ipv4 ∙ ap (λ t. bytes_eq t proto_ipv4) e in
      rw (no, yes)
  init_socket_address-parse_ip Domain.inet6 protocol ip port e =
      rw (cb.equals_lem protocol proto_ipv6 ∙ ap (λ t. bytes_eq t proto_ipv6) e)

  -- A known protocol, a port that parses to a number that is not 0, and an address that inet_pton accepts:
  -- the socket address has that family, the port in network order, and the address.
  pub init_socket_address-parsed :
      (domain : Domain) (protocol_string ip_string port_string : B) (port : ℕ) (addr : List ℕ)
      → cb.contents protocol_string ≡ keyword domain
      → parse (cb.contents port_string) ≡ some (suc port)
      → inet_pton domain (c_str (cb.contents ip_string)) ≡ (pos 1, addr)
      → init_socket_address parse inet_pton protocol_string ip_string port_string
        ≡ parsed (record { family = domain; port = htons (suc port); addr = addr })
  unfolding parse_ip parse_port_number with_port fill_address check_inet_pton_rc checked_port
  init_socket_address-parsed domain protocol ip port_string port addr e p q =
      init_socket_address-parse_ip domain protocol ip port_string e
      ∙ ap (λ t. with_port domain t (parse_port_number parse inet_pton port_string)) q
      ∙ ap (with_port domain (pos 1, addr)) (ap checked_port p ∙ checked_port-suc port)

  parse_ip-only :
      (domain : Domain) (ip_string port_string : B) (address : SocketAddress)
      → parse_ip parse inet_pton domain ip_string port_string ≡ parsed address
      → (port : ℕ) × (address.family ≡ domain)
        × (parse (cb.contents port_string) ≡ some (suc port))
        × (inet_pton domain (c_str (cb.contents ip_string)) ≡ (pos 1, address.addr))
        × (address.port ≡ htons (suc port))
  unfolding parse_ip parse_port_number
  parse_ip-only domain ip port_string address h =
      with_port-only domain (inet_pton domain (c_str (cb.contents ip)))
        (parse (cb.contents port_string)) address h

  -- An address is made only of texts that describe it: the protocol's name is the keyword of its
  -- family, the port's text parses to a number that is not 0 and stands in it in network order, and
  -- inet_pton, for this family, has returned 1 for the text of the address and written its bytes.
  pub init_socket_address-only :
      (protocol_string ip_string port_string : B) (address : SocketAddress)
      → init_socket_address parse inet_pton protocol_string ip_string port_string ≡ parsed address
      → (port : ℕ) × (cb.contents protocol_string ≡ keyword address.family)
        × (parse (cb.contents port_string) ≡ some (suc port))
        × (inet_pton address.family (c_str (cb.contents ip_string)) ≡ (pos 1, address.addr))
        × (address.port ≡ htons (suc port))
  unfolding init_socket_address
  init_socket_address-only protocol ip port_string address e =
      by_names (cb.equals protocol proto_ipv6) (cb.equals protocol proto_ipv4) refl refl e
    where
      named : (name : List ℕ) → cb.equals protocol name ≡ true → cb.contents protocol ≡ name
      named name h =
          bytes_eq_sound (cb.contents protocol) name (sym (cb.equals_lem protocol name) ∙ h)

      by_family :
          (domain : Domain)
          → cb.contents protocol ≡ keyword domain
          → parse_ip parse inet_pton domain ip port_string ≡ parsed address
          → (port : ℕ) × (cb.contents protocol ≡ keyword address.family)
            × (parse (cb.contents port_string) ≡ some (suc port))
            × (inet_pton address.family (c_str (cb.contents ip)) ≡ (pos 1, address.addr))
            × (address.port ≡ htons (suc port))
      by_family domain name h =
          let (port, family, number, written, stored) =
            parse_ip-only domain ip port_string address h in
          (
            port,
            name ∙ ap keyword (sym family),
            number,
            subst (λ d. inet_pton d (c_str (cb.contents ip)) ≡ (pos 1, address.addr)) (sym family)
                written,
            stored,
          )

      by_names :
          (six four : Bool)
          → cb.equals protocol proto_ipv6 ≡ six
          → cb.equals protocol proto_ipv4 ≡ four
          → (if six
              then parse_ip parse inet_pton Domain.inet6 ip port_string
              else (if four
                  then parse_ip parse inet_pton Domain.inet4 ip port_string
                  else refused InetError.unknown_af))
            ≡ parsed address
          → (port : ℕ) × (cb.contents protocol ≡ keyword address.family)
            × (parse (cb.contents port_string) ≡ some (suc port))
            × (inet_pton address.family (c_str (cb.contents ip)) ≡ (pos 1, address.addr))
            × (address.port ≡ htons (suc port))
      by_names true four six_is four_is h = by_family Domain.inet6 (named proto_ipv6 six_is) h
      by_names false true six_is four_is h = by_family Domain.inet4 (named proto_ipv4 four_is) h
      by_names false false six_is four_is h = absurd (cc)
