-- ===== src/Tor.antt =====
-- The SOCKS5 handshake of lnsocket.c with a Tor proxy, and the split of an address at its colon. A
-- string is given by its bytes before the terminating zero. `atoi` of the C library is a parameter:
-- it gives the int as its bit pattern.
pub mod Confined
pub mod Address
pub mod Request
use lnsocket.Prelude.{
  ℕ, zero, suc, ◌+◌, ◌%◌, ◌^◌, Bool, true, false, Option, none, some, List, [], ◌∷◌, ◌++◌, ◌==◌,
  if◌then◌else◌, length,
}
use lnsocket.Prelude.Bytes.{be16_bytes}
use lnsocket.Errors.{Note}
use lnsocket.Primitives.{Externals}
use lnsocket.Net.{Net, read, read_all, write}
use lnsocket.State.{Lnsocket}
use lnsocket.Io.{World, Io, and_then, ◌>>=◌, ◌>>◌, pure, fail}

-- A character in front of what the loop finds behind it.
abbrev pub behind_char : ℕ → List ℕ × Option (List ℕ) → List ℕ × Option (List ℕ)
behind_char c (host, port) = (c ∷ host, port)

-- `host` afterwards, and the port or a null pointer.
unfoldable pub parse_port : List ℕ → List ℕ × Option (List ℕ)
parse_port [] = ([], none)
parse_port (c ∷ host) =
    let rest = parse_port host in if c == 58 then ([], some host) else behind_char c rest

abbrev pub socks_v5 : ℕ
socks_v5 = 5

abbrev pub socks_noauth : ℕ
socks_noauth = 0

abbrev pub socks_connect : ℕ
socks_connect = 1

abbrev pub socks_typ_ipv4 : ℕ
socks_typ_ipv4 = 1

abbrev pub socks_domain : ℕ
socks_domain = 3

abbrev pub socks_typ_ipv6 : ℕ
socks_typ_ipv6 = 4

abbrev pub socks_error : ℕ
socks_error = 0xff

abbrev pub init_request : List ℕ
init_request = socks_v5 ∷ 1 ∷ socks_noauth ∷ []

-- The `buffer` of the request: the length of the host is a byte, and the port a u16.
unfoldable pub v5_request : (List ℕ → ℕ) → List ℕ → List ℕ → List ℕ
v5_request atoi host port =
    socks_v5 ∷ socks_connect ∷ 0 ∷ socks_domain ∷ length host % 256 ∷ host
    ++ be16_bytes (atoi port % 2 ^ 16)

-- Byte `i` of an array on the stack of which `bytes` were read: behind them it is what it was.
unfoldable pub byte_at : ℕ → ℕ → List ℕ → ℕ
byte_at stale i [] = stale
byte_at stale zero (b ∷ bytes) = b
byte_at stale (suc i) (b ∷ bytes) = byte_at stale i bytes

module _ (ext : Externals) where
  unfoldable pub sent_all : Note → ℕ → Lnsocket → Option ℕ × Net → Option (Unit {0}) × World
  sent_all n size ln (none, net) = fail ext n (ln, net)
  sent_all n size ln (some k, net) =
      if k == size then (some tt, (ln, net)) else fail ext n (ln, net)

  unfoldable pub write_all : List ℕ → Note → Io (Unit {0})
  unfolding sent_all
  write_all bytes n (ln, net) = sent_all n (length bytes) ln (write net bytes)

  -- The header after one call of `read`, which is refused if it answers 0. The answer -1 passes, and
  -- leaves the header as it was.
  unfoldable pub proxy_header : ℕ → Lnsocket → Option (List ℕ) × Net → Option ℕ × World
  proxy_header stale ln (none, net) = (some stale, (ln, net))
  proxy_header stale ln (some [], net) = fail ext Note.proxy_header_failed (ln, net)
  proxy_header stale ln (some (b ∷ bytes), net) = (some (byte_at stale 1 (b ∷ bytes)), (ln, net))

  -- `hdr[1]`; `stale` is what the array holds there at first.
  unfoldable pub read_proxy_header : ℕ → Io ℕ
  unfolding proxy_header byte_at
  read_proxy_header stale (ln, net) = proxy_header stale ln (read net 2)

  unfoldable pub check_method : ℕ → Io (Unit {0})
  check_method method w =
      if method == socks_error then fail ext Note.proxy_authentication w else (some tt, w)

  unfoldable pub read_reply : Io (List ℕ)
  read_reply (ln, net) =
      let r = read_all net.events 10 in
      let net' = record net { events = r.rest } in
      if r.done then (some r.bytes, (ln, net')) else fail ext Note.proxy_reply_failed (ln, net')

  -- The array is full, so that nothing stale is read.
  unfoldable pub check_reply : List ℕ → Io (Unit {0})
  unfolding byte_at
  check_reply reply w =
      if byte_at 0 1 reply == 0
      then if byte_at 0 3 reply == socks_typ_ipv6
        then fail ext Note.proxy_ipv6 w
        else if byte_at 0 3 reply == socks_typ_ipv4
        then (some tt, w)
        else fail ext Note.proxy_not_ipv4 w
      else fail ext Note.proxy_connection_failed w

  unfoldable pub lnsocket_handshake_with_tor : (List ℕ → ℕ) → ℕ → List ℕ → List ℕ → Io (Unit {0})
  lnsocket_handshake_with_tor atoi stale host port = do
    write_all init_request Note.proxy_request_failed
    method ← read_proxy_header stale
    check_method method
    write_all (v5_request atoi host port) Note.proxy_buffer_failed
    reply ← read_reply
    check_reply reply
