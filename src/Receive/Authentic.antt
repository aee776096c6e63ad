-- ===== src/Receive/Authentic.antt =====
-- Which bytes `lnsocket_read` accepts, and under which key.
use lnsocket.Prelude.{
  ℕ, ◌+◌, ◌-◌, ◌≡◌, refl, sym, ap, ◌∙◌, true, Option, some, List, [], arith, length,
}
use lnsocket.Memory.{Memory, Ptr, store, load, load-store}
use lnsocket.Cursor.{Cursor, reset_cursor}
use lnsocket.Errors.{Note}
use lnsocket.Primitives.{Externals, AeadLaws}
use lnsocket.Crypto.{
  CryptoState, rotate_receiver, le64_nonce, next_nonce, be16_to_cpu, cryptomsg_decrypt_header,
  cryptomsg_decrypt_body,
}
use lnsocket.Crypto.Transport.{halfway, received}
use lnsocket.Crypto.Opening.{decrypt_header-HeaderOpened, decrypt_body-BodyOpened}
use lnsocket.Net.{read_all}
use lnsocket.Net.Weight.{read_all-length}
use lnsocket.Io.{World, cleared, >>=-inv}
use lnsocket.Receive.{read_header, read_body, decrypt_header, slice, decrypt_body, lnsocket_read}
use lnsocket.Receive.Steps.{behind}
use lnsocket.Receive.Inversion.{
  HeaderCame, HeaderRead, SliceGiven, BodyCame, BodyRead, read_header-HeaderCame,
  decrypt_header-HeaderRead, slice-SliceGiven, read_body-BodyCame, decrypt_body-BodyRead,
}

module _ (ext : Externals) where
  -- The stream gave a header and a body that opened, one behind the other, under the key and the next
  -- two nonces of the socket: the header to the length, the body to the message.
  pub record Authentic (w : World) (ptr : Ptr) (len : ℕ) (v : World) : Type 0 where
    pub header : List ℕ
    pub size : List ℕ
    pub body : List ℕ
    pub header_came :
        ((read_all w.1.events 18).done ≡ true) × ((read_all w.1.events 18).bytes ≡ header)
    pub body_came :
        ((read_all (behind w.1 18).events (len + 16)).done ≡ true)
        × ((read_all (behind w.1 18).events (len + 16)).bytes ≡ body)
    pub header_opens :
        ext.aead.decrypt w.0.crypto_state.rk (le64_nonce w.0.crypto_state.rn) [] header ≡ some size
    pub is_len : len ≡ be16_to_cpu size
    pub body_opens :
        ext.aead.decrypt w.0.crypto_state.rk (le64_nonce (next_nonce w.0.crypto_state.rn)) [] body
        ≡ some (load v.0.memory ptr len)
    pub state : v.0.crypto_state ≡ received ext.hkdf w.0.crypto_state
    pub rest : v.1 ≡ behind (behind w.1 18) (len + 16)

  -- Bytes that were put where the one slice begins, and decrypted to the other.
  record Opened (cs : CryptoState) (bytes : List ℕ) (dec : Cursor) (size : ℕ) (v : World)
      : Type 0 where
    opens :
        ext.aead.decrypt cs.rk (le64_nonce cs.rn) [] bytes ≡ some (load v.0.memory dec.start size)
    state : v.0.crypto_state ≡ rotate_receiver ext.hkdf (halfway cs)

  stored-Opened :
      (laws : AeadLaws ext.aead) (cs next : CryptoState) (m : Memory) (a n : ℕ)
      (bytes plain : List ℕ) (dec : Cursor) (cap size : ℕ) (v : World)
      → length bytes ≡ size + 16
      → n ≡ size + 16
      → cryptomsg_decrypt_body ext.aead ext.hkdf cs (load (store m a bytes) a n) cap
        ≡ (some plain, next)
      → v.0.crypto_state ≡ next
      → v.0.memory ≡ store (store m a bytes) dec.start plain
      → Opened cs bytes dec size v
  stored-Opened laws cs next m a n bytes plain dec cap size v long span answer moved mem =
      let text : load (store m a bytes) a n ≡ bytes = rw span (rw long at (load-store m a bytes)) in
      let o =
        decrypt_body-BodyOpened ext.aead ext.hkdf cs next bytes cap plain (rw text at answer) in
      let k : length plain ≡ size = omega (arith, long, laws.length-decrypt _ _ _ _ _ o.opens) in
      let stored : load (store (store m a bytes) dec.start plain) dec.start size ≡ plain =
        rw k at (load-store (store m a bytes) dec.start plain) in
      record { opens = rw (mem, stored) o.opens; state = moved ∙ o.state }

  body-Opened :
      (laws : AeadLaws ext.aead) (w u v : World) (enc dec : Cursor) (size : ℕ)
      → enc.p ≡ enc.start
      → enc.end ≡ enc.start + (size + 16)
      → BodyCame ext w u enc
      → (b : BodyRead ext dec u v (
          cryptomsg_decrypt_body ext.aead ext.hkdf u.0.crypto_state
            (load u.0.memory enc.start (enc.end - enc.start))
            (dec.end - dec.start)))
      → ((read_all w.1.events (size + 16)).done ≡ true)
        × Opened w.0.crypto_state (read_all w.1.events (size + 16)).bytes dec size v
        × (v.1 ≡ behind w.1 (size + 16))
  body-Opened laws w u v enc dec size at_start whole c b =
      let span : enc.end - enc.start ≡ size + 16 = omega (arith, whole) in
      let bytes : List ℕ = (read_all w.1.events (size + 16)).bytes in
      let done : (read_all w.1.events (size + 16)).done ≡ true = rw span at c.done in
      let cs : u.0.crypto_state ≡ w.0.crypto_state = ap (λ (x : World). x.0.crypto_state) c.after in
      let mem : u.0.memory ≡ store w.0.memory enc.start bytes =
        rw (span, at_start) at (ap (λ (x : World). x.0.memory) c.after) in
      let net : u.1 ≡ behind w.1 (size + 16) = rw span at (ap (λ (x : World). x.1) c.after) in
      (
        done,
        stored-Opened laws w.0.crypto_state b.next w.0.memory enc.start (enc.end - enc.start) bytes
            b.plain dec (dec.end - dec.start) size v
            ((read_all-length w.1.events (size + 16)).1 done) span (rw (cs, mem) at b.answer)
            (ap (λ (x : World). x.0.crypto_state) b.after)
            (rw mem at (ap (λ (x : World). x.0.memory) b.after)),
        ap (λ (x : World). x.1) b.after ∙ net,
      )

  assembled :
      (laws : AeadLaws ext.aead) (w w1 w2 w3 w4 w5 w6 v : World) (hdr : List ℕ) (size : ℕ)
      (enc dec : Cursor) (ptr : Ptr) (len : ℕ)
      → HeaderCame ext (cleared w.0, w.1) w1 18 hdr
      → HeaderRead ext w1 w2 (cryptomsg_decrypt_header ext.aead w1.0.crypto_state hdr) size
      → SliceGiven ext w2 w3 (size + 16) enc
      → SliceGiven ext w3 w4 size dec
      → BodyCame ext w4 w5 enc
      → BodyRead ext dec w5 w6 (
          cryptomsg_decrypt_body ext.aead ext.hkdf w5.0.crypto_state
            (load w5.0.memory enc.start (enc.end - enc.start))
            (dec.end - dec.start))
      → ◌≡◌ {A = Option (Ptr × ℕ) × World}
          (some (dec.start, dec.end - dec.start), w6)
          (some (ptr, len), v)
      → Authentic w ptr len v
  unfolding reset_cursor
  assembled laws w w1 w2 w3 w4 w5 w6 v hdr size enc dec ptr len a b c d e f g =
      let cs1 : w1.0.crypto_state ≡ w.0.crypto_state =
        ap (λ (x : World). x.0.crypto_state) a.after in
      let net1 : w1.1 ≡ behind w.1 18 = ap (λ (x : World). x.1) a.after in
      let o =
        decrypt_header-HeaderOpened ext.aead w.0.crypto_state b.next hdr size
          (rw cs1 at b.answer) in
      let cs4 : w4.0.crypto_state ≡ halfway w.0.crypto_state =
        d.state ∙ c.state ∙ ap (λ (x : World). x.0.crypto_state) b.after ∙ o.state in
      let net4 : w4.1 ≡ behind w.1 18 = d.net ∙ c.net ∙ ap (λ (x : World). x.1) b.after ∙ net1 in
      let (done, op, rest) = body-Opened laws w4 w5 w6 enc dec size c.at_start c.whole e f in
      let at_ptr : dec.start ≡ ptr = cc in
      let is_v : w6 ≡ v = cc in
      let span : dec.end - dec.start ≡ len = cc in
      let is_size : size ≡ len = omega (arith, d.whole, span) in
      record {
        header = hdr;
        size = o.plain;
        body = (read_all (behind w.1 18).events (len + 16)).bytes;
        header_came = (a.done, a.bytes);
        body_came = (rw (net4, is_size) at done, refl);
        header_opens = o.opens;
        is_len = sym is_size ∙ o.is_size;
        body_opens = rw (cs4, net4, at_ptr, is_v, is_size) at op.opens;
        state = rw (cs4, is_v) at op.state;
        rest = rw (net4, is_v, is_size) at rest;
      }

  -- Whatever `lnsocket_read` accepts came in the next 18 bytes of the stream and those behind them:
  -- the first open under the receiving key and nonce to the length that it gives, the others, 16 more
  -- than this, under the same key and the next nonce to the message that it gives. The receiving
  -- state moves on by one message, and what comes behind is left in the stream.
  pub lnsocket_read-Authentic :
      AeadLaws ext.aead
      → (w v : World) (ptr : Ptr) (len : ℕ) → lnsocket_read ext w ≡ (some (ptr, len), v)
      → Authentic w ptr len v
  unfolding lnsocket_read
  lnsocket_read-Authentic laws w v ptr len h =
      let (hdr, w1, e1, h1) = >>=-inv (read_header ext 18) _ {w = (cleared w.0, w.1)} h in
      let (size, w2, e2, h2) = >>=-inv (decrypt_header ext hdr) _ h1 in
      let (enc, w3, e3, h3) = >>=-inv (slice ext (size + 16) Note.out_of_memory) _ h2 in
      let (dec, w4, e4, h4) = >>=-inv (slice ext size Note.out_of_memory_sizes) _ h3 in
      let (_, w5, e5, h5) = >>=-inv (read_body ext enc) _ h4 in
      let (_, w6, e6, h6) = >>=-inv (decrypt_body ext enc dec) _ h5 in
      assembled laws w w1 w2 w3 w4 w5 w6 v hdr size enc dec ptr len
        (read_header-HeaderCame ext (cleared w.0, w.1) w1 18 hdr e1)
        (decrypt_header-HeaderRead ext w1 w2 hdr size e2)
        (slice-SliceGiven ext w2 w3 (size + 16) Note.out_of_memory enc e3)
        (slice-SliceGiven ext w3 w4 size Note.out_of_memory_sizes dec e4)
        (read_body-BodyCame ext w4 w5 enc e5) (decrypt_body-BodyRead ext enc dec w5 w6 e6) h6
