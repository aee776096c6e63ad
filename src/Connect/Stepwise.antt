-- ===== src/Connect/Stepwise.antt =====
-- The handshake step by step, as it is driven through `lnsocket_act_one` of lnsocket_wasm.c and
-- `lnsocket_act_two`, against the whole of `lnsocket_connect_with`.
use lnsocket.Prelude.{
  ℕ, ◌≡◌, refl, ◌∙◌, true, false, Bool, Bool-cases, inl, inr, some, none, Option, List, ◌++◌,
}
use mathlib.Core.Path.{subst}
use lnsocket.Primitives.{Pubkey, Externals}
use lnsocket.Net.{Net}
use lnsocket.State.{Keypair, ActOne, Lnsocket}
use lnsocket.Io.{World, Io, ◌>>=◌, ◌>>◌, >>=-eq_some, >>=-inv}
use lnsocket.Hex.{parse_node_id}
use lnsocket.Session.{is_zero}
use lnsocket.Handshake.{
  act_one_bytes, act_three_bytes, act_one_initiator_prep, send_act, receive_act_two,
  lnsocket_act_two, act_two_initiator, act_one_initiator,
}
use lnsocket.Connect.{
  System, key_set, read_node_id, read_their_id, pubkey_from_node_id, begin_handshake, node_id_of,
  pubkey_or_fail, act_one_built, build_first_act, lnsocket_act_one, lnsocket_connect_with,
}
use lnsocket.Connect.Direct.{Serves, with_socket, connect_with-begun}

module _ (ext : Externals) where
  key_set_inv :
      (w v : World)
      → key_set ext w ≡ (some tt, v)
      → (is_zero (w.0.key.public ++ w.0.key.priv) ≡ false) × (v ≡ w)
  unfolding key_set
  key_set_inv w v h = elim (Bool-cases (is_zero (w.0.key.public ++ w.0.key.priv))) [
    | inl zero ↦ absurd (let g = rw zero at h in cc)
    | inr set ↦ let g = rw set at h in (set, cc)
  ]

  node_id_of_inv :
      (r : Bool × List ℕ) (w v : World) (id : List ℕ)
      → node_id_of ext r w ≡ (some id, v)
      → (r ≡ (true, id)) × (v ≡ w)
  unfolding node_id_of
  node_id_of_inv (false, b) w v id h = absurd (cc)
  node_id_of_inv (true, b) w v id h = (cc, cc)

  pubkey_or_fail_inv :
      (r : Option Pubkey) (w v : World) (p : Pubkey)
      → pubkey_or_fail ext r w ≡ (some p, v)
      → (r ≡ some p) × (v ≡ w)
  unfolding pubkey_or_fail
  pubkey_or_fail_inv none w v p h = absurd (cc)
  pubkey_or_fail_inv (some q) w v p h = (cc, cc)

  act_one_built_inv :
      (r : Option (Unit {0}) × World) (v : World) (act1 : ActOne)
      → act_one_built ext r ≡ (some act1, v)
      → (r ≡ (some tt, v)) × (act1 ≡ v.0.handshake.act1)
  unfolding act_one_built
  act_one_built_inv (none, w) v act1 h = absurd (cc)
  act_one_built_inv (some _, w) v act1 h = (cc, cc)

  read_node_id_inv :
      (node_id : List ℕ) (w v : World) (id : List ℕ)
      → read_node_id ext node_id w ≡ (some id, v)
      → (parse_node_id node_id ≡ (true, id)) × (v ≡ w)
  unfolding read_node_id
  read_node_id_inv node_id w v id h = node_id_of_inv (parse_node_id node_id) w v id h

  read_their_id_inv :
      (id : List ℕ) (w v : World) (p : Pubkey)
      → read_their_id ext id w ≡ (some p, v)
      → (ext.secp.pubkey_parse id ≡ some p) × (v ≡ w)
  unfolding read_their_id pubkey_from_node_id
  read_their_id_inv id w v p h = pubkey_or_fail_inv (ext.secp.pubkey_parse id) w v p h

  -- What follows act one: it is sent, act two is received, and act three is made and sent.
  abbrev pub from_act_one : ActOne → Io (Unit {0})
  from_act_one act1 = do
    send_act ext (λ _. act_one_bytes act1) 50
    act2 ← receive_act_two ext
    act3 ← lnsocket_act_two ext act2
    send_act ext (λ _. act_three_bytes act3) 66

  initiator-from_act_one :
      (e : Keypair) (w v : World) (act1 : ActOne)
      → build_first_act ext e w ≡ (some act1, v)
      → act_one_initiator ext e w ≡ from_act_one act1 v
  unfolding build_first_act act_one_initiator act_two_initiator send_act
  initiator-from_act_one e w v act1 h =
      let (prep, is) = act_one_built_inv (act_one_initiator_prep ext e w) v act1 h in
      let rest : Io (Unit {0}) =
        send_act ext (λ ln. act_one_bytes ln.handshake.act1) 50 >> act_two_initiator ext in
      let whole : act_one_initiator ext e w ≡ rest v =
        >>=-eq_some (act_one_initiator_prep ext e) (λ _. rest) {w = w} prep in
      let same : rest v ≡ from_act_one act1 v = rw is refl in whole ∙ same

  stepwise :
      (sys : System) (e : Keypair) (node_id host : List ℕ) (timeout_ms : ℕ) (ln : Lnsocket)
      (net : Net) (act1 : ActOne) (w : World) (id : List ℕ) (p : Pubkey) (w1 w2 w3 : World)
      → Serves sys host timeout_ms
      → key_set ext (with_socket ext sys ln, net) ≡ (some tt, w1)
      → read_node_id ext node_id w1 ≡ (some id, w2)
      → read_their_id ext id w2 ≡ (some p, w3)
      → build_first_act ext e (begin_handshake ext p w3.0, w3.1) ≡ (some act1, w)
      → lnsocket_connect_with ext sys e node_id host none timeout_ms (ln, net) ≡ from_act_one act1 w
  stepwise sys e node_id host timeout_ms ln net act1 w id p w1 w2 w3 s e1 e2 e3 h =
      let (set, at1) = key_set_inv (with_socket ext sys ln, net) w1 e1 in
      let (parses, at2) = read_node_id_inv node_id w1 w2 id e2 in
      let (names, at3) = read_their_id_inv id w2 w3 p e3 in
      connect_with-begun ext sys e node_id host id p timeout_ms ln net s set parses names
      ∙ initiator-from_act_one e _ w act1 (
          subst
            (λ (x : World). build_first_act ext e (begin_handshake ext p x.0, x.1) ≡ (some act1, w))
            (at3 ∙ at2 ∙ at1) h)

  -- Where the system serves every call, and `lnsocket_act_one` on the socket with its descriptor gives
  -- an act one, `lnsocket_connect_with` without a proxy is what the caller does by hand behind it: it
  -- sends this act one, receives act two, gives it to `lnsocket_act_two` and sends the act three that
  -- this gives.
  pub lnsocket_connect_with-from_act_one :
      (sys : System) (e : Keypair) (node_id host : List ℕ) (timeout_ms : ℕ) (ln : Lnsocket)
      (net : Net) (act1 : ActOne) (w : World)
      → Serves sys host timeout_ms
      → lnsocket_act_one ext e node_id (with_socket ext sys ln, net) ≡ (some act1, w)
      → lnsocket_connect_with ext sys e node_id host none timeout_ms (ln, net) ≡ from_act_one act1 w
  unfolding lnsocket_act_one
  lnsocket_connect_with-from_act_one sys e node_id host timeout_ms ln net act1 w s h =
      let start : World = (with_socket ext sys ln, net) in
      let (_, w1, e1, h1) = >>=-inv (key_set ext) _ {w = start} h in
      let (id, w2, e2, h2) = >>=-inv (read_node_id ext node_id) _ h1 in
      let (p, w3, e3, h3) = >>=-inv (read_their_id ext id) _ h2 in
      stepwise sys e node_id host timeout_ms ln net act1 w id p w1 w2 w3 s e1 e2 e3 h3
