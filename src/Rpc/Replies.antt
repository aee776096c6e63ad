-- ===== src/Rpc/Replies.antt =====
-- What the loop of lnrpc.c prints of a conversation.
use lnsocket.Prelude.{
  ℕ, ◌-◌, ◌≤◌, ◌≡◌, ◌⊎◌, inl, inr, refl, sym, ap, ◌∙◌, true, some, List, [], ◌∷◌, ◌++◌, map,
  append_assoc, arith, length, le→ltb, drop, All, replicate, take, take-append-drop, length-take,
  length-drop,
}
use lnsocket.Prelude.Bytes.{IsU16}
use lnsocket.Memory.{Memory, Ptr, load, load_split}
use lnsocket.Primitives.{Externals, AeadLaws}
use lnsocket.Crypto.{CryptoState}
use lnsocket.Crypto.Transport.{Mirrors, sent}
use lnsocket.Net.{Net}
use lnsocket.Net.Stream.{Carries}
use lnsocket.State.{Lnsocket}
use lnsocket.Io.{World}
use lnsocket.Receive.Messages.{Fits, packets}
use lnsocket.Receive.Typed.{typed, recv_delivers}
use lnsocket.Send.Untouched.{Untouched, Untouched-refl}
use lnsocket.Session.Untouched.{lnsocket_pong-Untouched}
use lnsocket.Connect.{Selected, ready}
use lnsocket.Rpc.{
  Reply, term, continues, ping, other, reply_of, before_zero, Outcome, piece, answer_ping, dispatch,
  received, reply_loop,
}

-- A message by its type and its payload.
abbrev pub Message : Type 0
Message = ℕ × List ℕ

-- The text of a reply: behind the id of the request, up to a zero.
unfoldable pub text_of : List ℕ → List ℕ
text_of body = before_zero (drop 8 body)

unfoldable pub shown : Reply → List ℕ → List ℕ → List ℕ
unfolding text_of
shown term body rest = text_of body ++ 10 ∷ []
shown continues body rest = text_of body ++ rest
shown ping body rest = rest
shown other body rest = rest

-- The texts of the replies one behind the other, up to the last, and a line break behind that.
unfoldable pub shown_all : List Message → List ℕ
unfolding shown
shown_all [] = []
shown_all (m ∷ msgs) = shown (reply_of m.0) m.1 (shown_all msgs)

-- A final reply is among them.
unfoldable pub IsFinished : List Message → Type 0
IsFinished [] = ⊥
IsFinished (m ∷ msgs) = (reply_of m.0 ≡ term) ⊎ IsFinished msgs

-- A reply holds the id of its request.
unfoldable pub Holds : Reply → List ℕ → Type 0
Holds term body = 8 ≤ length body
Holds continues body = 8 ≤ length body
Holds ping body = Unit {0}
Holds other body = Unit {0}

abbrev pub bytes_of : List Message → List (List ℕ)
bytes_of msgs = map (λ m. typed m.0 m.1) msgs

module _ (ext : Externals) where
  abbrev pub IsReadable : Lnsocket → Message → Type 0
  IsReadable ln m = IsU16 m.0 × Holds (reply_of m.0) m.1 × Fits ext ln (typed m.0 m.1)

  pub IsReadable-same :
      (ln ln' : Lnsocket) (msgs : List Message)
      → ln'.msgbuf.start ≡ ln.msgbuf.start
      → ln'.msgbuf.end ≡ ln.msgbuf.end
      → All (IsReadable ln) msgs
      → All (IsReadable ln') msgs
  IsReadable-same ln ln' [] a b h = tt
  IsReadable-same ln ln' (m ∷ msgs) a b h =
      ((h.0.0, h.0.1, (h.0.2.0, omega (arith, h.0.2.1))), IsReadable-same ln ln' msgs a b h.1)

module _ (ext : Externals) (stack_string : Memory → Ptr → List ℕ) where
  piece-text :
      (m : Memory) (buf : Ptr) (body : List ℕ)
      → 8 ≤ length body
      → load m buf (length body) ≡ body
      → piece ext stack_string m buf (length body) ≡ text_of body
  unfolding piece text_of
  piece-text m buf body h text =
      let n : length (take 8 body) ≡ 8 = omega (arith, length-take 8 body) in
      let d : length (drop 8 body) ≡ length body - 8 = length-drop 8 body in
      let whole : load m buf (length (take 8 body ++ drop 8 body)) ≡ take 8 body ++ drop 8 body =
        rw (take-append-drop 8 body) text in
      let back = (load_split m buf (take 8 body) (drop 8 body) whole).1 in
      rw (le→ltb (length body) 8 h) (ap before_zero (rw d at (rw n at back)))

  -- What a turn of the loop comes to.
  pub record Prints (r : Outcome) (text : List ℕ) : Type 0 where
    pub output : r.output ≡ text
    pub ok : r.ok ≡ some true

  dispatch-term :
      (pong buf : Ptr) (r : Reply) (body rest : List ℕ) (w : World) (more : World → Outcome)
      → r ≡ term
      → Holds r body
      → load w.0.memory buf (length body) ≡ body
      → Prints (dispatch ext stack_string pong r buf (length body) w more) (shown r body rest)
  unfolding dispatch shown Holds
  dispatch-term pong buf term body rest w more e h text = record {
    output = ap (λ (t : List ℕ). t ++ 10 ∷ []) (piece-text w.0.memory buf body h text);
    ok = refl;
  }
  dispatch-term pong buf continues body rest w more e h text = absurd (cc)
  dispatch-term pong buf ping body rest w more e h text = absurd (cc)
  dispatch-term pong buf other body rest w more e h text = absurd (cc)

  dispatch-shown :
      (pong buf : Ptr) (r : Reply) (body rest : List ℕ) (w : World) (more : World → Outcome)
      → Holds r body
      → load w.0.memory buf (length body) ≡ body
      → ((v : World) → Untouched w v → Prints (more v) rest)
      → Prints (dispatch ext stack_string pong r buf (length body) w more) (shown r body rest)
  unfolding dispatch shown Holds answer_ping
  dispatch-shown pong buf term body rest w more h text k =
      dispatch-term pong buf term body rest w more refl h text
  dispatch-shown pong buf continues body rest w more h text k =
      let p = k w (Untouched-refl w) in
      record { output = rw (piece-text w.0.memory buf body h text, p.output) refl; ok = p.ok }
  dispatch-shown pong buf ping body rest w more h text k =
      k _ (lnsocket_pong-Untouched ext pong buf (length body) w)
  dispatch-shown pong buf other body rest w more h text k = k w (Untouched-refl w)

  -- The stream begins with the packets of a run of messages of the side that the socket mirrors, each of
  -- which fits the buffer, a reply holding an id of 8 bytes at least, and a final reply is among them.
  -- Where `select` tells as often as there are messages that the socket is ready, the loop of lnrpc.c
  -- ends with success, and has printed the texts of the replies in their order up to the first final
  -- one, and a line break: pings, answered or not, and other messages between them change nothing.
  pub reply_loop-Prints :
      (laws : AeadLaws ext.aead) (s : CryptoState) (pong : Ptr) (ln : Lnsocket) (net : Net)
      (msgs : List Message) (rest : List ℕ) (selects : List Selected)
      → Mirrors s ln.crypto_state
      → All (IsReadable ext ln) msgs
      → IsFinished msgs
      → Carries net.events (packets ext s (bytes_of msgs) ++ rest)
      → Prints
          (reply_loop ext stack_string pong (replicate (length msgs) ready ++ selects) (ln, net))
          (shown_all msgs)
  unfolding reply_loop shown_all IsFinished received
  reply_loop-Prints laws s pong ln net [] rest selects v readable fin c = absurd fin
  reply_loop-Prints laws s pong ln net (m ∷ msgs) rest selects v readable fin c =
      let d =
        recv_delivers ext laws s ln net m.0 m.1
          (packets ext (sent ext.hkdf s) (bytes_of msgs) ++ rest) v readable.0.0 readable.0.2
          (rw append_assoc at c) in
      let again : IsFinished msgs
          → (w : World) → Untouched d.world w
          → Prints (reply_loop ext stack_string pong (replicate (length msgs) ready ++ selects) w)
              (shown_all msgs) =
        λ more w u.
          reply_loop-Prints laws (sent ext.hkdf s) pong w.0 w.1 msgs rest selects
            (record {
              nonce = d.mirrors.nonce ∙ sym u.rn;
              key = d.mirrors.key ∙ sym u.rk;
              chaining_key = d.mirrors.chaining_key ∙ sym u.r_ck;
            })
            (IsReadable-same ext ln w.0 msgs (u.start ∙ d.start) (u.end ∙ d.end) readable.1) more
            (rw u.events d.carries) in
      rw d.answer (elim fin [
        | inl last ↦
            dispatch-term pong d.ptr (reply_of m.0) m.1 (shown_all msgs) d.world _ last readable.0.1
              d.payload
        | inr more ↦
            dispatch-shown pong d.ptr (reply_of m.0) m.1 (shown_all msgs) d.world _ readable.0.1
              d.payload (again more)
      ])
