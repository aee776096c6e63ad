-- ===== src/Tor/Confined.antt =====
-- What the dialogue with the proxy does to memory.
use lnsocket.Prelude.{ℕ, Option, none, some, List, [], ◌∷◌, ◌==◌, length}
use lnsocket.Errors.{Note}
use lnsocket.Primitives.{Externals}
use lnsocket.Net.{Net, read, write, read_all}
use lnsocket.Io.{World}
use lnsocket.Bounds.{IsSound, Keeps, Anything, either}
use lnsocket.Bounds.Quiet.{
  IsConfined, done-Keeps, >>=-IsConfined, noted-Keeps, test-Keeps, check-Keeps, same-Quiet,
}
use lnsocket.Tor.{
  byte_at, socks_error, socks_typ_ipv6, socks_typ_ipv4, sent_all, write_all, proxy_header,
  read_proxy_header, check_method, read_reply, check_reply, init_request, v5_request,
  lnsocket_handshake_with_tor,
}

module _ (ext : Externals) where
  sent_all-Keeps :
      (n : Note) (size : ℕ) (w : World) (r : Option ℕ × Net)
      → IsSound w.0
      → Keeps Anything w (sent_all ext n size w.0 r)
  unfolding sent_all
  sent_all-Keeps n size w (none, net) s = noted-Keeps ext n w _ (same-Quiet w.0) s
  sent_all-Keeps n size w (some k, net) s = check-Keeps ext (k == size) n tt w _ (same-Quiet w.0) s

  write_all-IsConfined : (bytes : List ℕ) (n : Note) → IsConfined (write_all ext bytes n)
  unfolding write_all
  write_all-IsConfined bytes n w s = sent_all-Keeps n (length bytes) w (write w.1 bytes) s

  proxy_header-Keeps :
      (stale : ℕ) (w : World) (r : Option (List ℕ) × Net)
      → IsSound w.0
      → Keeps Anything w (proxy_header ext stale w.0 r)
  unfolding proxy_header
  proxy_header-Keeps stale w (none, net) s = done-Keeps stale w _ (same-Quiet w.0) s
  proxy_header-Keeps stale w (some [], net) s =
      noted-Keeps ext Note.proxy_header_failed w _ (same-Quiet w.0) s
  proxy_header-Keeps stale w (some (b ∷ bytes), net) s =
      done-Keeps (byte_at stale 1 (b ∷ bytes)) w _ (same-Quiet w.0) s

  read_proxy_header-IsConfined : (stale : ℕ) → IsConfined (read_proxy_header ext stale)
  unfolding read_proxy_header
  read_proxy_header-IsConfined stale w s = proxy_header-Keeps stale w (read w.1 2) s

  check_method-IsConfined : (method : ℕ) → IsConfined (check_method ext method)
  unfolding check_method
  check_method-IsConfined method w s =
      test-Keeps ext (method == socks_error) Note.proxy_authentication tt w w (same-Quiet w.0) s

  read_reply-IsConfined : IsConfined (read_reply ext)
  unfolding read_reply
  read_reply-IsConfined w s =
      check-Keeps ext (read_all w.1.events 10).done Note.proxy_reply_failed _ w _ (same-Quiet w.0) s

  check_reply-IsConfined : (reply : List ℕ) → IsConfined (check_reply ext reply)
  unfolding check_reply
  check_reply-IsConfined reply w s =
      either (Keeps Anything w) (byte_at 0 1 reply == 0)
        (either (Keeps Anything w) (byte_at 0 3 reply == socks_typ_ipv6)
          (noted-Keeps ext Note.proxy_ipv6 w w (same-Quiet w.0) s)
          (check-Keeps ext (byte_at 0 3 reply == socks_typ_ipv4) Note.proxy_not_ipv4 tt w w
            (same-Quiet w.0) s))
        (noted-Keeps ext Note.proxy_connection_failed w w (same-Quiet w.0) s)

  pub handshake_with_tor-IsConfined :
      (atoi : List ℕ → ℕ) (stale : ℕ) (host port : List ℕ)
      → IsConfined (lnsocket_handshake_with_tor ext atoi stale host port)
  unfolding lnsocket_handshake_with_tor
  handshake_with_tor-IsConfined atoi stale host port =
      >>=-IsConfined _ _ (write_all-IsConfined init_request Note.proxy_request_failed) λ _.
        >>=-IsConfined _ _ (read_proxy_header-IsConfined stale) λ method.
          >>=-IsConfined _ _ (check_method-IsConfined method) λ _.
            >>=-IsConfined _ _
              (write_all-IsConfined (v5_request atoi host port) Note.proxy_buffer_failed)
              λ _. >>=-IsConfined _ _ read_reply-IsConfined λ reply. check_reply-IsConfined reply
