-- ===== src/Message/PingPong.antt =====
-- Ping and pong messages.
use lnsocket.Prelude.{
  ℕ, ◌+◌, ◌-◌, ◌≤◌, ◌<◌, ◌≡◌, ◌⊎◌, refl, some, Option, List, ◌++◌, arith, length, ap, replicate,
  length-replicate, leb, if◌then◌else◌,
}
use lnsocket.Prelude.Bytes.{IsU16, be16_bytes}
use lnsocket.Memory.{Memory, Ptr, store, load, load-store, load_split}
use lnsocket.Cursor.{make_cursor, cursor_push_u16, ◌&&>◌, Buffer}
use lnsocket.Cursor.Push.{Pushes, &&>-Pushes, cursor_push_u16-Pushes}
use lnsocket.Cursor.Pull.{cursor_pull_u16-load}
use lnsocket.Message.{
  over, wire_ping, wire_pong, pong_zeros, push_zeros, lnsocket_make_pong_msg,
  lnsocket_make_ping_msg, lnsocket_make_pong_from_ping, lnsocket_decode_ping_payload,
}
use lnsocket.Message.Layout.{
  message_fits, IsWritten, message-IsWritten, message_full, message_safe, pong_zeros-Pushes,
  push_zeros-Pushes,
}

-- The number of zeros in the pong that answers a request for `n` bytes.
abbrev pub pong_size : ℕ → ℕ
pong_size n = n - 4

abbrev pub pong_bytes : ℕ → List ℕ
pong_bytes n = be16_bytes wire_pong ++ (be16_bytes (pong_size n) ++ replicate (pong_size n) 0)

abbrev pub ping_bytes : ℕ → ℕ → List ℕ
ping_bytes n ignored =
    be16_bytes wire_ping ++ (be16_bytes n ++ (be16_bytes ignored ++ replicate ignored 0))

-- The number of zeros, as the source computes it.
clipped : (n : ℕ) → (if leb n 4 then 0 else n - 4) ≡ n - 4
clipped n = ground arith

pong-Pushes :
    (n : ℕ)
    → Pushes
        (cursor_push_u16 wire_pong &&> cursor_push_u16 (pong_size n) &&> pong_zeros (pong_size n))
        (pong_bytes n)
        (1 - (n - 4))
pong-Pushes n =
    &&>-Pushes (cursor_push_u16-Pushes wire_pong)
      (&&>-Pushes {u = 1 - (n - 4)} (cursor_push_u16-Pushes (pong_size n))
        (pong_zeros-Pushes (pong_size n)) (omega (arith, length-replicate {A = ℕ} (n - 4) 0)))
      (omega arith)

ping-Pushes :
    (n ignored : ℕ)
    → Pushes
        (cursor_push_u16 wire_ping
          &&> cursor_push_u16 n
          &&> cursor_push_u16 ignored
          &&> push_zeros ignored)
        (ping_bytes n ignored)
        (1 - ignored)
ping-Pushes n ignored =
    &&>-Pushes (cursor_push_u16-Pushes wire_ping)
      (&&>-Pushes {u = 1 - ignored} (cursor_push_u16-Pushes n)
        (&&>-Pushes {u = 1 - ignored} (cursor_push_u16-Pushes ignored) (push_zeros-Pushes ignored)
          (omega (arith, length-replicate {A = ℕ} ignored 0)))
        (omega arith))
      (omega arith)

-- A pong consists of its type, the number of zeros and the zeros: four fewer than were asked for,
-- none where four or fewer were. In a buffer of as many bytes, one more where there are no zeros, it
-- is written, and its length is returned.
pub make_pong_fits :
    (m : Memory) (buf : Ptr) (buflen n : ℕ)
    → 4 + pong_size n + (1 - pong_size n) ≤ buflen
    → lnsocket_make_pong_msg m buf buflen n ≡ (4 + pong_size n, store m buf (pong_bytes n))
unfolding lnsocket_make_pong_msg
make_pong_fits m buf buflen n room =
    let k : length (pong_bytes n) ≡ 4 + pong_size n =
      omega (arith, length-replicate {A = ℕ} (n - 4) 0) in
    rw (clipped n) (rw k at (message_fits (pong-Pushes n) m buf buflen (omega (arith, k))))

-- In a buffer that is too small for it the answer is 0.
pub make_pong_full :
    (m : Memory) (buf : Ptr) (buflen n : ℕ)
    → buflen < 4 + pong_size n + (1 - pong_size n)
    → (lnsocket_make_pong_msg m buf buflen n).0 ≡ 0
unfolding lnsocket_make_pong_msg
make_pong_full m buf buflen n full =
    rw (clipped n) (
      message_full (pong-Pushes n) m buf buflen (omega (arith, length-replicate {A = ℕ} (n - 4) 0)))

-- Whether the pong fits or not, a byte outside the buffer keeps its value.
pub make_pong_safe :
    (m : Memory) (buf : Ptr) (buflen n : ℕ) (x : Ptr)
    → (x < buf) ⊎ (buf + buflen ≤ x)
    → (lnsocket_make_pong_msg m buf buflen n).1 x ≡ m x
unfolding lnsocket_make_pong_msg
make_pong_safe m buf buflen n x out =
    rw (clipped n) (message_safe (pong-Pushes n) m buf buflen x out)

-- A pong consists of its type, the number of zeros and the zeros: four fewer than were asked for,
-- none where four or fewer were. In a buffer of as many bytes, one more where there are no zeros, it
-- is written and its length returned, and in any smaller one the answer is 0. Either way a byte outside the buffer
-- keeps its value.
pub make_pong-IsWritten :
    (m : Memory) (buf : Ptr) (buflen n : ℕ) (x : Ptr)
    → IsWritten
        (lnsocket_make_pong_msg m buf buflen n)
        m
        buf
        buflen
        (pong_bytes n)
        (1 - pong_size n)
        x
unfolding lnsocket_make_pong_msg
make_pong-IsWritten m buf buflen n x =
    rw (clipped n) (message-IsWritten (pong-Pushes n) m buf buflen x)

-- A ping consists of its type, the number of bytes asked for, and the number of zeros behind it. In
-- a buffer of as many bytes, one more where there are no zeros, it is written, and its length is
-- returned.
pub make_ping_fits :
    (m : Memory) (buf : Ptr) (buflen n ignored : ℕ)
    → 6 + ignored + (1 - ignored) ≤ buflen
    → lnsocket_make_ping_msg m buf buflen n ignored
      ≡ (6 + ignored, store m buf (ping_bytes n ignored))
unfolding lnsocket_make_ping_msg
make_ping_fits m buf buflen n ignored room =
    let k : length (ping_bytes n ignored) ≡ 6 + ignored =
      omega (arith, length-replicate {A = ℕ} ignored 0) in
    rw k at (message_fits (ping-Pushes n ignored) m buf buflen (omega (arith, k)))

-- In a buffer that is too small for it the answer is 0.
pub make_ping_full :
    (m : Memory) (buf : Ptr) (buflen n ignored : ℕ)
    → buflen < 6 + ignored + (1 - ignored)
    → (lnsocket_make_ping_msg m buf buflen n ignored).0 ≡ 0
unfolding lnsocket_make_ping_msg
make_ping_full m buf buflen n ignored full =
    message_full (ping-Pushes n ignored) m buf buflen
      (omega (arith, length-replicate {A = ℕ} ignored 0))

-- A ping consists of its type, the number of bytes asked for, the number of zeros and the zeros. In
-- a buffer of as many bytes, one more where there are no zeros, it is written and its length
-- returned, and in any smaller one the answer is 0. Either way a byte outside the buffer keeps its value.
pub make_ping-IsWritten :
    (m : Memory) (buf : Ptr) (buflen n ignored : ℕ) (x : Ptr)
    → IsWritten
        (lnsocket_make_ping_msg m buf buflen n ignored)
        m
        buf
        buflen
        (ping_bytes n ignored)
        (1 - ignored)
        x
unfolding lnsocket_make_ping_msg
make_ping-IsWritten m buf buflen n ignored x =
    message-IsWritten (ping-Pushes n ignored) m buf buflen x

-- A payload of two bytes or more that begins with a u16 asks for that many bytes.
pub decode_ping :
    (m : Memory) (payload : Ptr) (payload_len n : ℕ)
    → IsU16 n
    → 2 ≤ payload_len
    → load m payload 2 ≡ be16_bytes n
    → lnsocket_decode_ping_payload m payload payload_len ≡ some n
unfolding lnsocket_decode_ping_payload make_cursor
decode_ping m payload payload_len n h room l =
    ap (λ (r : Option ℕ × Buffer). r.0)
      (cursor_pull_u16-load (over m payload payload_len) n h (omega arith) l)

-- The pong that answers a ping of `lnsocket_make_ping_msg` that fitted its buffer, made from the
-- payload behind its type, is the one for the number of bytes, a u16, that the ping asked for.
pub pong_from_ping :
    (m : Memory) (ping : Ptr) (pinglen n ignored : ℕ) (buf : Ptr) (buflen : ℕ)
    → IsU16 n
    → 6 + ignored + (1 - ignored) ≤ pinglen
    → let (len, sent) = lnsocket_make_ping_msg m ping pinglen n ignored in
      lnsocket_make_pong_from_ping sent buf buflen (ping + 2) (len - 2)
      ≡ lnsocket_make_pong_msg sent buf buflen n
unfolding lnsocket_make_pong_from_ping
pong_from_ping m ping pinglen n ignored buf buflen h room =
    let sent : Memory = store m ping (ping_bytes n ignored) in
    let rest : List ℕ = be16_bytes ignored ++ replicate ignored 0 in
    let (_, tail) =
      load_split sent ping (be16_bytes wire_ping) (be16_bytes n ++ rest)
        (load-store m ping (ping_bytes n ignored)) in
    let (two, _) = load_split sent (ping + 2) (be16_bytes n) rest tail in
    rw
      (
        make_ping_fits m ping pinglen n ignored room,
        decode_ping sent (ping + 2) (6 + ignored - 2) n h (omega arith) two,
      )
      refl
