-- ===== src/State.antt =====
-- `struct lnsocket` of lnsocket_internal.h and the structs of handshake.h and crypto.h. The arena
-- and every buffer lie in `memory`. The fields that nothing reads (`errors`, `num_errors`,
-- `responder_id`, `handshake.addr`) are left out. The struct is this record, and what `memory` has at the
-- place of the struct in the arena stands for nothing.
use lnsocket.Prelude.{ℕ, List}
use lnsocket.Memory.{Memory}
use lnsocket.Cursor.{Cursor}
use lnsocket.Errors.{Errors, Note, note_error}
use lnsocket.Primitives.{Pubkey, Externals}
use lnsocket.Crypto.{Secret, CryptoState}

pub record Keypair : Type 0 where
  pub public : Pubkey
  pub priv : Secret

-- The first two acts of the handshake have one layout.
pub record ActOne : Type 0 where
  pub v : ℕ
  pub pubkey : List ℕ
  pub tag : List ℕ

pub record ActThree : Type 0 where
  pub v : ℕ
  pub ciphertext : List ℕ
  pub tag : List ℕ

pub data Side : Type 0 where
  initiator : Side
  responder : Side

pub record Handshake : Type 0 where
  pub ck : Secret
  pub temp_k : Secret
  pub h : List ℕ
  pub e : Keypair
  pub ss : Secret
  pub re : Pubkey
  pub act1 : ActOne
  pub act2 : ActOne
  pub act3 : ActThree
  pub their_id : Pubkey
  pub side : Side

pub record Lnsocket : Type 0 where
  pub memory : Memory
  pub mem : Cursor
  pub msgbuf : Cursor
  pub errs : Errors
  pub socket : ℕ
  pub key : Keypair
  pub handshake : Handshake
  pub crypto_state : CryptoState

-- `note_error(&ln->errs, ...)`
unfoldable pub note : Externals → Note → Lnsocket → Lnsocket
note ext n ln =
    let (m, errs) = note_error ext.overrun (ext.format n) ln.memory ln.errs in
    record ln { memory = m; errs = errs }
