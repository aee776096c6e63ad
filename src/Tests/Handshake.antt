-- ===== src/Tests/Handshake.antt =====
-- The handshake at concrete inputs.
use lnsocket.Prelude.{ℕ, ◌≡◌, refl, none, some, List, [], ◌∷◌, replicate}
use lnsocket.Primitives.{Pubkey}
use lnsocket.Crypto.{CryptoState, le64_nonce}
use lnsocket.Crypto.Transport.{Mirrors}
use lnsocket.State.{Keypair, ActOne, ActThree, Lnsocket}
use lnsocket.Handshake.{act_one_initiator_prep, lnsocket_act_two, act_two_initiator}
use lnsocket.Handshake.Responder.{Progress, read_act_one, write_act_two, read_act_three}
use lnsocket.Handshake.Agreement.{IsKeypair, prepared, act_one_two_three_agree}
use lnsocket.Handshake.Rejection.{act_two_authentic, act_two_failed, tag_key, tag_data}
use lnsocket.Tests.Toy.{toy, toy_aead, toy_aead_laws, toy_secp_laws}
use lnsocket.Tests.Transport.{ln, line}

-- The pair of the secret whose bytes are all `b`.
abbrev pub pair : ℕ → Keypair
pair b = record { public = replicate 32 b; priv = replicate 32 b }

pub pair_3 : IsKeypair toy (pair 3)
unfolding lnsocket.Tests.Toy.create_toy
pair_3 = refl

pub pair_4 : IsKeypair toy (pair 4)
unfolding lnsocket.Tests.Toy.create_toy
pair_4 = refl

pub pair_5 : IsKeypair toy (pair 5)
unfolding lnsocket.Tests.Toy.create_toy
pair_5 = refl

pub own : IsKeypair toy ln.key
unfolding lnsocket.Tests.Toy.create_toy
own = refl

act_one_two_three_agree_example :
    (ln1 ln2 : Lnsocket) × (act2 : ActOne) × (act3 : ActThree) × (past_one past_two : Progress)
    × (r : CryptoState) × (act_one_initiator_prep toy
          (pair 4)
          (prepared toy ln (pair 3).public, line [])
        ≡ (some tt, (ln1, line [])))
    × (read_act_one toy (pair 3) ln1.handshake.act1 ≡ some ((pair 4).public, past_one))
    × (write_act_two toy (pair 5) (pair 4).public past_one ≡ some (act2, past_two))
    × (lnsocket_act_two toy act2 (ln1, line []) ≡ (some act3, (ln2, line [])))
    × (read_act_three toy (pair 5) act3 past_two ≡ some (ln.key.public, r))
    × Mirrors ln2.crypto_state r
    × Mirrors r ln2.crypto_state
act_one_two_three_agree_example =
    act_one_two_three_agree toy toy_aead_laws toy_secp_laws (pair 3) (pair 4) (pair 5) ln (line [])
      pair_3 pair_4 pair_5 own

-- An act of another version.
abbrev act_v1 : ActOne
act_v1 = record { v = 1; pubkey = []; tag = [] }

act_v1_refused : (lnsocket_act_two toy act_v1 (ln, line [])).0 ≡ none
unfolding lnsocket_act_two lnsocket.Handshake.check_version
act_v1_refused = refl

act_two_failed_example :
    (lnsocket_act_two toy act_v1 (ln, line [])).1.0.crypto_state ≡ ln.crypto_state
act_two_failed_example = act_two_failed toy act_v1 ln (line []) act_v1_refused

-- An act that the socket accepts as it stands.
abbrev shared_secret : List ℕ
shared_secret = replicate 32 5

abbrev good : ActOne
good = record {
  v = 0;
  pubkey = 2 ∷ replicate 32 3;
  tag =
      toy_aead.encrypt (tag_key toy ln shared_secret) (le64_nonce 0)
        (tag_data toy ln (replicate 32 3)) [];
}

good_accepted : lnsocket_act_two toy good (ln, line []) ≡ (
  some (lnsocket_act_two toy good (ln, line [])).1.0.handshake.act3,
  (lnsocket_act_two toy good (ln, line [])).1,
)
unfolding lnsocket_act_two lnsocket.Tests.Toy.parse_toy lnsocket.Tests.Toy.open_toy
    lnsocket.Tests.Toy.list_eq lnsocket.Tests.Toy.tag le64_nonce lnsocket.Tests.Toy.add_lists
good_accepted = refl

act_two_authentic_example :
    (good.v ≡ 0)
    × (re : Pubkey) × (ee plain : List ℕ) × (toy.secp.pubkey_parse good.pubkey ≡ some re)
    × (toy.secp.ecdh re ln.handshake.e.priv ≡ some ee)
    × (toy_aead.decrypt (tag_key toy ln ee) (le64_nonce 0) (tag_data toy ln re) good.tag
        ≡ some plain)
act_two_authentic_example =
    act_two_authentic toy good ln (line []) _ (lnsocket_act_two toy good (ln, line [])).1
      good_accepted
