-- ===== src/Handshake/Confined.antt =====
-- What the handshake of handshake.c does to memory.
use lnsocket.Prelude.{ℕ, refl, Option, none, some, List, ◌==◌, length, take}
use lnsocket.Errors.{Note}
use lnsocket.Primitives.{Pubkey, Externals}
use lnsocket.Crypto.{Secret}
use lnsocket.Net.{Net, read, write}
use lnsocket.State.{Keypair, ActOne, Handshake, Lnsocket}
use lnsocket.Io.{World}
use lnsocket.Bounds.{IsSound, Keeps, Anything, either}
use lnsocket.Bounds.Quiet.{
  Quiet, IsConfined, done-Keeps, modify-IsConfined, >>=-IsConfined, noted-Keeps, check-Keeps,
  same-Quiet,
}
use lnsocket.Handshake.{
  act_two_of, with_handshake, shared, share, mix_ephemeral, build_act_one, act_one_initiator_prep,
  handshake_success, encrypt_static, finish_act_three, act_three_built, build_act_three,
  check_version, parsed, parse_remote, tag_checked, check_tag, derive_step, lnsocket_act_two,
  act_two_received, receive_act_two, act_sent, send_act, act_two_initiator, act_one_initiator,
  act_one_bytes, act_three_bytes,
}

-- What changes the handshake alone.
pub with_handshake-Quiet : (ln : Lnsocket) (h : Handshake) → Quiet ln (with_handshake ln h)
with_handshake-Quiet ln h = record { memory = refl; msgbuf = refl; errs = refl }

module _ (ext : Externals) where
  shared-Keeps :
      (n : Note) (w : World) (net : Net) (r : Option (List ℕ))
      → IsSound w.0
      → Keeps Anything w (shared ext n w.0 net r)
  unfolding shared
  shared-Keeps n w net none s = noted-Keeps ext n w _ (same-Quiet w.0) s
  shared-Keeps n w net (some ss) s = done-Keeps tt w _ (with_handshake-Quiet w.0 _) s

  share-IsConfined :
      (point : Lnsocket → Pubkey) (secret : Lnsocket → Secret) (n : Note)
      → IsConfined (share ext point secret n)
  unfolding share
  share-IsConfined point secret n w s =
      shared-Keeps n w w.1 (ext.secp.ecdh (point w.0) (secret w.0)) s

  mix_ephemeral-Quiet : (e : Keypair) (ln : Lnsocket) → Quiet ln (mix_ephemeral ext e ln)
  unfolding mix_ephemeral
  mix_ephemeral-Quiet e ln = with_handshake-Quiet ln _

  build_act_one-Quiet : (ln : Lnsocket) → Quiet ln (build_act_one ext ln)
  unfolding build_act_one
  build_act_one-Quiet ln = with_handshake-Quiet ln _

  encrypt_static-Quiet : (ln : Lnsocket) → Quiet ln (encrypt_static ext ln)
  unfolding encrypt_static
  encrypt_static-Quiet ln = with_handshake-Quiet ln _

  finish_act_three-Quiet : (ln : Lnsocket) → Quiet ln (finish_act_three ext ln)
  unfolding finish_act_three
  finish_act_three-Quiet ln = with_handshake-Quiet ln _

  derive_step-Quiet : (ln : Lnsocket) → Quiet ln (derive_step ext ln)
  unfolding derive_step
  derive_step-Quiet ln = with_handshake-Quiet ln _

  handshake_success-Quiet : (ln : Lnsocket) → Quiet ln (handshake_success ext ln)
  unfolding handshake_success
  handshake_success-Quiet ln = record { memory = refl; msgbuf = refl; errs = refl }

  pub act_one_initiator_prep-IsConfined : (e : Keypair) → IsConfined (act_one_initiator_prep ext e)
  unfolding act_one_initiator_prep
  act_one_initiator_prep-IsConfined e =
      >>=-IsConfined _ _ (modify-IsConfined _ (mix_ephemeral-Quiet e)) λ _.
        >>=-IsConfined _ _
          (share-IsConfined (λ ln. ln.handshake.their_id) (λ ln. ln.handshake.e.priv)
            Note.act1_ecdh_failed)
          λ _. modify-IsConfined _ build_act_one-Quiet

  act_three_built-IsConfined : IsConfined (act_three_built ext)
  unfolding act_three_built
  act_three_built-IsConfined w s = done-Keeps _ w w (same-Quiet w.0) s

  build_act_three-IsConfined : IsConfined (build_act_three ext)
  unfolding build_act_three
  build_act_three-IsConfined = >>=-IsConfined _ _ (modify-IsConfined _ encrypt_static-Quiet) λ _.
      >>=-IsConfined _ _
        (share-IsConfined (λ ln. ln.handshake.re) (λ ln. ln.key.priv) Note.act3_ecdh_failed)
        λ _. >>=-IsConfined _ _ (modify-IsConfined _ finish_act_three-Quiet) λ _.
          >>=-IsConfined _ _ (modify-IsConfined _ handshake_success-Quiet)
            λ _. act_three_built-IsConfined

  check_version-IsConfined : (act2 : ActOne) → IsConfined (check_version ext act2)
  unfolding check_version
  check_version-IsConfined act2 w s =
      check-Keeps ext (act2.v == 0) Note.unrecognized_version tt w w (same-Quiet w.0) s

  parsed-Keeps :
      (w : World) (r : Option Pubkey) → IsSound w.0 → Keeps Anything w (parsed ext w.0 w.1 r)
  unfolding parsed
  parsed-Keeps w none s = noted-Keeps ext Note.failed_parse_remote w w (same-Quiet w.0) s
  parsed-Keeps w (some re) s = done-Keeps tt w _ (with_handshake-Quiet w.0 _) s

  parse_remote-IsConfined : (act2 : ActOne) → IsConfined (parse_remote ext act2)
  unfolding parse_remote
  parse_remote-IsConfined act2 w s = parsed-Keeps w (ext.secp.pubkey_parse act2.pubkey) s

  tag_checked-Keeps :
      (act2 : ActOne) (w : World) (r : Option (List ℕ))
      → IsSound w.0
      → Keeps Anything w (tag_checked ext act2 w.0 w.1 r)
  unfolding tag_checked
  tag_checked-Keeps act2 w none s =
      noted-Keeps ext Note.handshake_decrypt_failed w w (same-Quiet w.0) s
  tag_checked-Keeps act2 w (some _) s = done-Keeps tt w _ (with_handshake-Quiet w.0 _) s

  check_tag-IsConfined : (act2 : ActOne) → IsConfined (check_tag ext act2)
  unfolding check_tag
  check_tag-IsConfined act2 w s = tag_checked-Keeps act2 w _ s

  pub lnsocket_act_two-IsConfined : (act2 : ActOne) → IsConfined (lnsocket_act_two ext act2)
  unfolding lnsocket_act_two
  lnsocket_act_two-IsConfined act2 = >>=-IsConfined _ _ (check_version-IsConfined act2) λ _.
      >>=-IsConfined _ _ (parse_remote-IsConfined act2) λ _.
        >>=-IsConfined _ _
          (share-IsConfined (λ ln. ln.handshake.re) (λ ln. ln.handshake.e.priv)
            Note.act2_ecdh_failed)
          λ _.
            >>=-IsConfined _ _ (modify-IsConfined _ derive_step-Quiet)
              λ _. >>=-IsConfined _ _ (check_tag-IsConfined act2) λ _. build_act_three-IsConfined

  act_two_received-Keeps :
      (w : World) (r : Option (List ℕ) × Net)
      → IsSound w.0
      → Keeps Anything w (act_two_received ext w.0 r)
  unfolding act_two_received
  act_two_received-Keeps w (none, net) s =
      noted-Keeps ext Note.act_two_read_failed w _ (same-Quiet w.0) s
  act_two_received-Keeps w (some bytes, net) s =
      either (Keeps Anything w) (length bytes == 50)
        (done-Keeps (act_two_of bytes) w _ (with_handshake-Quiet w.0 _) s)
        (noted-Keeps ext Note.act_two_read_failed w _ (same-Quiet w.0) s)

  receive_act_two-IsConfined : IsConfined (receive_act_two ext)
  unfolding receive_act_two
  receive_act_two-IsConfined w s = act_two_received-Keeps w (read w.1 50) s

  act_sent-Keeps :
      (size : ℕ) (w : World) (r : Option ℕ × Net)
      → IsSound w.0
      → Keeps Anything w (act_sent ext w.0 size r)
  unfolding act_sent
  act_sent-Keeps size w (none, net) s =
      noted-Keeps ext Note.initial_send_failed w _ (same-Quiet w.0) s
  act_sent-Keeps size w (some n, net) s =
      check-Keeps ext (n == size) Note.initial_send_failed tt w _ (same-Quiet w.0) s

  send_act-IsConfined :
      (bytes : Lnsocket → List ℕ) (size : ℕ) → IsConfined (send_act ext bytes size)
  unfolding send_act
  send_act-IsConfined bytes size w s = act_sent-Keeps size w (write w.1 (take size (bytes w.0))) s

  act_two_initiator-IsConfined : IsConfined (act_two_initiator ext)
  unfolding act_two_initiator
  act_two_initiator-IsConfined = >>=-IsConfined _ _ receive_act_two-IsConfined λ act2.
      >>=-IsConfined _ _ (lnsocket_act_two-IsConfined act2)
        λ act3. send_act-IsConfined (λ _. act_three_bytes act3) 66

  -- Whether it succeeds or not, the handshake on a socket whose cursors stand in their regions keeps
  -- them there and leaves every byte outside the message buffer and the error log.
  pub act_one_initiator-IsConfined : (e : Keypair) → IsConfined (act_one_initiator ext e)
  unfolding act_one_initiator
  act_one_initiator-IsConfined e = >>=-IsConfined _ _ (act_one_initiator_prep-IsConfined e) λ _.
      >>=-IsConfined _ _ (send_act-IsConfined (λ ln. act_one_bytes ln.handshake.act1) 50)
        λ _. act_two_initiator-IsConfined
