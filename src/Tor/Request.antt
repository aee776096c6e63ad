-- ===== src/Tor/Request.antt =====
-- The dialogue with the proxy.
use lnsocket.Prelude.{
  ℕ, ◌%◌, ◌^◌, ◌<◌, ◌≡◌, ◌≢◌, refl, ap, ◌∙◌, true, false, Option, none, some, List, [], ◌∷◌, ◌++◌,
  ◌==◌, if◌then◌else◌, length, length-append, take, drop, take-append, drop-append, ==_iff, arith,
  inl, inr, Bool-cases, leb, le→leb,
}
use lnsocket.Prelude.Bytes.{be16_bytes, be16_value, be16_round}
use lnsocket.Errors.{Note}
use lnsocket.Primitives.{Externals}
use lnsocket.Net.{Net, Event, read, read_event, read_all, write}
use lnsocket.Net.Stream.{Carries, read_exact, write_free, write_whole, read_sent}
use lnsocket.State.{Lnsocket}
use lnsocket.Io.{World, >>=-eq_some, >>=-inv}
use lnsocket.Tor.{
  init_request, v5_request, byte_at, write_all, sent_all, read_proxy_header, proxy_header,
  check_method, read_reply, check_reply, lnsocket_handshake_with_tor,
}

-- The address and the port of a request, as RFC 1928 lays it out: version 5, command 1, a reserved
-- byte, address type 3, the length of the name, the name, and the port in network byte order.
port_of : List ℕ → List ℕ → Option (List ℕ × ℕ)
port_of name (hi ∷ lo ∷ []) = some (name, be16_value hi lo)
port_of name _ = none

unfoldable pub decode_request : List ℕ → Option (List ℕ × ℕ)
unfolding port_of
decode_request (v ∷ command ∷ reserved ∷ type ∷ len ∷ bytes) =
    if v == 5
    then if command == 1
      then if type == 3
        then if leb len (length bytes) then port_of (take len bytes) (drop len bytes) else none
        else none
      else none
    else none
decode_request _ = none

-- For a name of at most 255 characters the request says the name and the port.
pub decode-v5_request :
    (atoi : List ℕ → ℕ) (host port : List ℕ)
    → length host < 256
    → decode_request (v5_request atoi host port) ≡ some (host, atoi port % 2 ^ 16)
unfolding decode_request v5_request
decode-v5_request atoi host port short =
    let n : length host % 256 ≡ length host = omega arith in
    let tail : List ℕ = be16_bytes (atoi port % 2 ^ 16) in
    let room : leb (length host) (length (host ++ tail)) ≡ true =
      le→leb (length host) (length (host ++ tail)) (omega (arith, length-append host tail)) in
    rw
      (
        n,
        room,
        take-append host tail,
        drop-append host tail,
        be16_round (atoi port % 2 ^ 16) (omega arith),
      )
      refl

module _ (ext : Externals) where
  sent_all-whole :
      (n : Note) (size : ℕ) (ln : Lnsocket) (r : Option ℕ × Net) (w : World)
      → sent_all ext n size ln r ≡ (some tt, w)
      → (r ≡ (some size, w.1)) × (w.0 ≡ ln)
  unfolding sent_all
  sent_all-whole n size ln (none, net) w h = absurd (cc)
  sent_all-whole n size ln (some k, net) w h = elim (Bool-cases (k == size)) [
    | inl whole ↦ let g = rw whole at h in let e = (==_iff k size).0 whole in (cc, cc)
    | inr part ↦ absurd (let g = rw part at h in cc)
  ]

  -- A write that succeeds has sent everything, whatever the connection does.
  write_all_sent :
      (bytes : List ℕ) (n : Note) (w w' : World)
      → write_all ext bytes n w ≡ (some tt, w')
      → w'.1.sent ≡ w.1.sent ++ bytes
  unfolding write_all
  write_all_sent bytes n w w' h =
      (write_whole w.1 w'.1 bytes (sent_all-whole n (length bytes) w.0 (write w.1 bytes) w' h).0).0

  -- The steps that send nothing.
  proxy_header-quiet :
      (stale : ℕ) (ln : Lnsocket) (r : Option (List ℕ) × Net)
      → (proxy_header ext stale ln r).1.1.sent ≡ r.1.sent
  unfolding proxy_header
  proxy_header-quiet stale ln (none, net) = refl
  proxy_header-quiet stale ln (some [], net) = refl
  proxy_header-quiet stale ln (some (b ∷ bytes), net) = refl

  read_proxy_header-quiet :
      (stale : ℕ) (w : World) → (read_proxy_header ext stale w).1.1.sent ≡ w.1.sent
  unfolding read_proxy_header
  read_proxy_header-quiet stale w = proxy_header-quiet stale w.0 (read w.1 2) ∙ read_sent w.1 2

  check_method-quiet : (m : ℕ) (w : World) → (check_method ext m w).1.1.sent ≡ w.1.sent
  unfolding check_method
  check_method-quiet m w = ground arith

  read_reply-quiet : (w : World) → (read_reply ext w).1.1.sent ≡ w.1.sent
  unfolding read_reply
  read_reply-quiet w = ground arith

  check_reply-quiet : (reply : List ℕ) (w : World) → (check_reply ext reply w).1.1.sent ≡ w.1.sent
  unfolding check_reply
  check_reply-quiet reply w = ground arith

  quiet_step :
      {A : Type 0} (r : Option A × World) {a : A} {w' : World} {bytes : List ℕ}
      → r.1.1.sent ≡ bytes
      → r ≡ (some a, w')
      → w'.1.sent ≡ bytes
  quiet_step r q e = rw e at q

  -- If the handshake with the proxy succeeds, both requests have been sent in full, and nothing else,
  -- whatever the connection does.
  pub tor_sent :
      (atoi : List ℕ → ℕ) (stale : ℕ) (host port : List ℕ) (w w' : World)
      → lnsocket_handshake_with_tor ext atoi stale host port w ≡ (some tt, w')
      → w'.1.sent ≡ (w.1.sent ++ init_request) ++ v5_request atoi host port
  unfolding lnsocket_handshake_with_tor
  tor_sent atoi stale host port w w' h =
      let (_, w1, e1, h1) = >>=-inv (write_all ext init_request Note.proxy_request_failed) _ h in
      let (m, w2, e2, h2) = >>=-inv (read_proxy_header ext stale) _ h1 in
      let (_, w3, e3, h3) = >>=-inv (check_method ext m) _ h2 in
      let (_, w4, e4, h4) =
        >>=-inv (write_all ext (v5_request atoi host port) Note.proxy_buffer_failed) _ h3 in
      let (reply, w5, e5, h5) = >>=-inv (read_reply ext) _ h4 in
      let first = write_all_sent init_request Note.proxy_request_failed w w1 e1 in
      let same =
        quiet_step (check_method ext m w2) (check_method-quiet m w2) e3
        ∙ quiet_step (read_proxy_header ext stale w1) (read_proxy_header-quiet stale w1) e2
        ∙ first in
      quiet_step (check_reply ext reply w5) (check_reply-quiet reply w5) h5
      ∙ quiet_step (read_reply ext w4) (read_reply-quiet w4) e5
      ∙ write_all_sent (v5_request atoi host port) Note.proxy_buffer_failed w3 w4 e4
      ∙ ap (λ (t : List ℕ). t ++ v5_request atoi host port) same

  write_all_free :
      (bytes : List ℕ) (n : Note) (ln : Lnsocket) (net : Net)
      → net.limits ≡ []
      → write_all ext bytes n (ln, net) ≡ (some tt, (ln, record net { sent = net.sent ++ bytes }))
  unfolding write_all sent_all
  write_all_free bytes n ln net free =
      let whole : (length bytes == length bytes) ≡ true = (==_iff _ _).1 refl in
      ap (sent_all ext n (length bytes) ln) (write_free net bytes free) ∙ rw whole

  -- Over a connection that takes everything, a proxy that answers the first request with a method
  -- other than 255, in one piece, and the second with the ten bytes of a success for an IPv4 address,
  -- in any pieces: the handshake succeeds, both requests are sent, and what follows is left.
  pub tor_completes :
      (atoi : List ℕ → ℕ) (stale : ℕ) (host port : List ℕ) (ln : Lnsocket) (net : Net)
      (version method : ℕ) (events : List Event) (reply rest : List ℕ)
      → net.limits ≡ []
      → net.events ≡ Event.chunk (version ∷ method ∷ []) ∷ events
      → method ≢ 255
      → Carries events (reply ++ rest)
      → length reply ≡ 10
      → byte_at 0 1 reply ≡ 0
      → byte_at 0 3 reply ≡ 1
      → (net' : Net) × (lnsocket_handshake_with_tor ext atoi stale host port (ln, net)
          ≡ (some tt, (ln, net')))
        × (net'.sent ≡ (net.sent ++ init_request) ++ v5_request atoi host port)
        × Carries net'.events rest
        × (net'.limits ≡ [])
  unfolding lnsocket_handshake_with_tor read_proxy_header proxy_header read read_event byte_at
      check_method read_reply check_reply
  tor_completes atoi stale host port ln net version method events reply rest free e ok c ten status
        type =
      let net1 : Net = record net { sent = net.sent ++ init_request } in
      let net2 : Net = record net1 { events = events } in
      let net3 : Net = record net2 { sent = net1.sent ++ v5_request atoi host port } in
      let t = read_exact reply rest 10 ten c in
      let accepted : (method == 255) ≡ false = ground arith in
      (
        record net3 { events = (read_all events 10).rest },
        >>=-eq_some (write_all ext init_request Note.proxy_request_failed) _
              (write_all_free init_request Note.proxy_request_failed ln net free)
            ∙ rw (e, accepted)
                (>>=-eq_some (write_all ext (v5_request atoi host port) Note.proxy_buffer_failed) _
                    (write_all_free (v5_request atoi host port) Note.proxy_buffer_failed ln net2
                      free)
                  ∙ rw (t.done, t.bytes, status, type)),
        refl,
        t.carries,
        free,
      )
