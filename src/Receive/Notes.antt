-- ===== src/Receive/Notes.antt =====
-- How `lnsocket_recv` fails.
use lnsocket.Prelude.{
  ℕ, suc, ◌+◌, ◌-◌, ◌≤◌, ◌≡◌, refl, true, ltb, Option, none, some, List, [], ◌∷◌, length,
}
use lnsocket.Memory.{Ptr}
use lnsocket.Cursor.{Cursor, Buffer, reset_cursor, cursor_slice}
use lnsocket.Errors.{Errors, Note, print_error_backtrace}
use lnsocket.Errors.Backtrace.{HasNoZero}
use lnsocket.Primitives.{Externals}
use lnsocket.Crypto.{CryptoState, cryptomsg_decrypt_header}
use lnsocket.Net.{read_all}
use lnsocket.State.{Lnsocket}
use lnsocket.Io.{World, cleared, buffer_of}
use lnsocket.Noting.{NotedOnce-prints, Notes, and_then-Notes, fail-Notes, done-Notes, either-Notes}
use lnsocket.Receive.{
  read_header, read_body, header_read, decrypt_header, sliced, slice, body_read, decrypt_body,
  lnsocket_read, received_type, pull_type, lnsocket_recv,
}

-- The errors of receiving a message.
pub data IsRecvNote : Note → Type 0 where
  header_unread : IsRecvNote Note.failed_reading_header
  header_refused : IsRecvNote Note.failed_header_decrypt
  no_room : IsRecvNote Note.out_of_memory
  no_room_for_both : IsRecvNote Note.out_of_memory_sizes
  body_unread : IsRecvNote Note.failed_reading_body
  body_refused : IsRecvNote Note.error_decrypting_body
  no_type : IsRecvNote Note.could_not_read_msgtype
  overflows : IsRecvNote Note.recv_buffer_overflow

module _ (ext : Externals) where
  read_header-Notes :
      (size : ℕ) (w : World) → Notes ext IsRecvNote w.0.errs (read_header ext size w)
  unfolding read_header
  read_header-Notes size w =
      either-Notes ext IsRecvNote (read_all w.1.events size).done w.0.errs
        (done-Notes ext IsRecvNote _ w.0.errs _ refl)
        (fail-Notes ext IsRecvNote Note.failed_reading_header w.0.errs _ header_unread refl)

  header_read-Notes :
      (w : World) (r : Option ℕ × CryptoState)
      → Notes ext IsRecvNote w.0.errs (header_read ext w.0 w.1 r)
  unfolding header_read
  header_read-Notes w (none, cs) =
      fail-Notes ext IsRecvNote Note.failed_header_decrypt w.0.errs _ header_refused refl
  header_read-Notes w (some size, cs) = done-Notes ext IsRecvNote size w.0.errs _ refl

  decrypt_header-Notes :
      (hdr : List ℕ) (w : World) → Notes ext IsRecvNote w.0.errs (decrypt_header ext hdr w)
  unfolding decrypt_header
  decrypt_header-Notes hdr w =
      header_read-Notes w (cryptomsg_decrypt_header ext.aead w.0.crypto_state hdr)

  sliced-Notes :
      (n : Note) (w : World) (r : Option Cursor × Buffer)
      → IsRecvNote n
      → Notes ext IsRecvNote w.0.errs (sliced ext n w.0 w.1 r)
  unfolding sliced
  sliced-Notes n w (none, b) is = fail-Notes ext IsRecvNote n w.0.errs _ is refl
  sliced-Notes n w (some c, b) is = done-Notes ext IsRecvNote c w.0.errs _ refl

  slice-Notes :
      (size : ℕ) (n : Note) (w : World)
      → IsRecvNote n
      → Notes ext IsRecvNote w.0.errs (slice ext size n w)
  unfolding slice
  slice-Notes size n w is = sliced-Notes n w (cursor_slice (buffer_of w.0) size) is

  read_body-Notes : (enc : Cursor) (w : World) → Notes ext IsRecvNote w.0.errs (read_body ext enc w)
  unfolding read_body
  read_body-Notes enc w =
      either-Notes ext IsRecvNote (read_all w.1.events (enc.end - enc.start)).done w.0.errs
        (done-Notes ext IsRecvNote _ w.0.errs _ refl)
        (fail-Notes ext IsRecvNote Note.failed_reading_body w.0.errs _ body_unread refl)

  body_read-Notes :
      (dec : Cursor) (w : World) (r : Option (List ℕ) × CryptoState)
      → Notes ext IsRecvNote w.0.errs (body_read ext dec w.0 w.1 r)
  unfolding body_read
  body_read-Notes dec w (none, cs) =
      fail-Notes ext IsRecvNote Note.error_decrypting_body w.0.errs _ body_refused refl
  body_read-Notes dec w (some plain, cs) = done-Notes ext IsRecvNote tt w.0.errs _ refl

  decrypt_body-Notes :
      (enc dec : Cursor) (w : World) → Notes ext IsRecvNote w.0.errs (decrypt_body ext enc dec w)
  unfolding decrypt_body
  decrypt_body-Notes enc dec w = body_read-Notes dec w _

  -- The log as it is emptied at the beginning.
  abbrev pub emptied : Errors → Errors
  unfolding reset_cursor
  emptied errs = record errs { cur = reset_cursor errs.cur }

  lnsocket_read-Notes : (w : World) → Notes ext IsRecvNote (emptied w.0.errs) (lnsocket_read ext w)
  unfolding lnsocket_read reset_cursor
  lnsocket_read-Notes w =
      and_then-Notes ext IsRecvNote (emptied w.0.errs) (some tt, (cleared w.0, w.1)) _
        (done-Notes ext IsRecvNote tt _ _ refl)
        λ _ v.
          and_then-Notes ext IsRecvNote v.0.errs (read_header ext 18 v) _ (read_header-Notes 18 v)
            λ hdr v1.
              and_then-Notes ext IsRecvNote v1.0.errs (decrypt_header ext hdr v1) _
                (decrypt_header-Notes hdr v1)
                λ size v2.
                  and_then-Notes ext IsRecvNote v2.0.errs
                    (slice ext (size + 16) Note.out_of_memory v2) _
                    (slice-Notes (size + 16) Note.out_of_memory v2 no_room)
                    λ enc v3.
                      and_then-Notes ext IsRecvNote v3.0.errs
                        (slice ext size Note.out_of_memory_sizes v3) _
                        (slice-Notes size Note.out_of_memory_sizes v3 no_room_for_both)
                        λ dec v4.
                          and_then-Notes ext IsRecvNote v4.0.errs (read_body ext enc v4) _
                            (read_body-Notes enc v4)
                            λ _ v5.
                              and_then-Notes ext IsRecvNote v5.0.errs (decrypt_body ext enc dec v5)
                                _ (decrypt_body-Notes enc dec v5)
                                λ _ v6.
                                  done-Notes ext IsRecvNote (dec.start, dec.end - dec.start)
                                    v6.0.errs v6 refl

  received_type-Notes :
      (msglen : ℕ) (w : World) (r : Option ℕ × Buffer)
      → Notes ext IsRecvNote w.0.errs (received_type ext msglen w.0 w.1 r)
  unfolding received_type
  received_type-Notes msglen w (none, cur) =
      fail-Notes ext IsRecvNote Note.could_not_read_msgtype w.0.errs _ no_type refl
  received_type-Notes msglen w (some t, cur) =
      either-Notes ext IsRecvNote (ltb cur.cur.end (cur.cur.p + (msglen - 2))) w.0.errs
        (fail-Notes ext IsRecvNote Note.recv_buffer_overflow w.0.errs _ overflows refl)
        (done-Notes ext IsRecvNote _ w.0.errs _ refl)

  pull_type-Notes :
      (msg : Ptr × ℕ) (w : World) → Notes ext IsRecvNote w.0.errs (pull_type ext msg w)
  unfolding pull_type
  pull_type-Notes (msg, msglen) w = received_type-Notes msglen w _

  lnsocket_recv-Notes : (w : World) → Notes ext IsRecvNote (emptied w.0.errs) (lnsocket_recv ext w)
  unfolding lnsocket_recv
  lnsocket_recv-Notes w =
      and_then-Notes ext IsRecvNote (emptied w.0.errs) (lnsocket_read ext w) (pull_type ext)
        (lnsocket_read-Notes w) λ msg v. pull_type-Notes msg v

  -- A socket whose log has room for any error of receiving, none of which has a zero byte in its text.
  pub record HasLog (ln : Lnsocket) : Type 0 where
    pub enabled : ln.errs.enabled ≡ true
    pub no_zero : (n : Note) → IsRecvNote n → HasNoZero (ext.format n)
    pub room :
        (n : Note)
        → IsRecvNote n
        → ln.errs.cur.start + suc (length (ext.format n)) ≤ ln.errs.cur.end

  -- Where `lnsocket_recv` fails, for whatever reason, on a socket whose enabled log has room for each
  -- error of receiving and none of these has a zero byte in its text, the backtrace prints exactly one
  -- error, one of those of receiving, whatever errors were in the log before.
  pub lnsocket_recv-Prints :
      (w : World)
      → HasLog w.0
      → (lnsocket_recv ext w).0 ≡ none
      → (n : Note) × IsRecvNote n
        × (print_error_backtrace (lnsocket_recv ext w).1.0.memory (lnsocket_recv ext w).1.0.errs
            ≡ some (ext.format n) ∷ [])
  unfolding reset_cursor
  lnsocket_recv-Prints w l fails =
      let o = (lnsocket_recv-Notes w).failed fails in
      (
        o.n,
        o.is_one,
        NotedOnce-prints ext IsRecvNote (emptied w.0.errs) (lnsocket_recv ext w).1 o l.enabled refl
            (l.no_zero o.n o.is_one) (l.room o.n o.is_one),
      )
