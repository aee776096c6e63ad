-- ===== src/Life.antt =====
-- A socket of lnsocket.c from its creation on: its user may call what the library offers in any
-- order, and stores in between what it likes where it likes but in the struct itself. The calls that
-- build their message in a buffer on the stack (`lnsocket_pong`, `lnsocket_perform_init`) are not among
-- them.
pub mod Confined
use lnsocket.Prelude.{ℕ, ◌+◌, ◌^◌, ◌≤◌, ◌<◌, ◌≡◌, ◌⊎◌, Option, List, length}
use lnsocket.Memory.{Memory, Ptr, store}
use lnsocket.Primitives.{Externals}
use lnsocket.Crypto.{Secret}
use lnsocket.Net.{Net}
use lnsocket.State.{Keypair, ActOne, Lnsocket}
use lnsocket.Io.{World}
use lnsocket.Session.{lnsocket_genkey, lnsocket_setkey, lnsocket_decrypt_header}
use lnsocket.Handshake.{lnsocket_act_two}
use lnsocket.Connect.{System, lnsocket_connect_with, lnsocket_act_one}
use lnsocket.Receive.{lnsocket_read, lnsocket_recv, lnsocket_decrypt}
use lnsocket.Send.{lnsocket_encrypt, lnsocket_write, lnsocket_send}

-- `theirs` is the memory as it would be if only the user wrote to it.
pub record Life : Type 0 where
  pub world : World
  pub theirs : Memory

-- Behind an operation.
abbrev pub ran : {A : Type 0} → Option A × World → Life → Life
ran r t = record t { world = r.1 }

-- Behind a store of the user.
abbrev pub stored : Ptr → List ℕ → Life → Life
stored a bs t = record {
  world = (record t.world.0 { memory = store t.world.0.memory a bs }, t.world.1);
  theirs = store t.theirs a bs;
}

abbrev pub with_socket : Lnsocket → Life → Life
with_socket ln t = record t { world = (ln, t.world.1) }

-- The arena is at `arena`, and `size` is `sizeof(struct lnsocket)`.
module _ (ext : Externals) (size : ℕ) (arena : Ptr) where
  pub data Step (t u : Life) : Type 0 where
    gets_key : (key : Keypair) → u ≡ with_socket (lnsocket_genkey key t.world.0) t → Step t u
    sets_key : (x : Secret) → u ≡ with_socket (lnsocket_setkey ext.secp x t.world.0).1 t → Step t u
    connects :
        (sys : System) (e : Keypair) (node_id host : List ℕ) (tor_proxy : Option (List ℕ))
        (timeout_ms : ℕ)
        → u ≡ ran (lnsocket_connect_with ext sys e node_id host tor_proxy timeout_ms t.world) t
        → Step t u
    makes_act_one :
        (e : Keypair) (node_id : List ℕ)
        → u ≡ ran (lnsocket_act_one ext e node_id t.world) t
        → Step t u
    takes_act_two : (act2 : ActOne) → u ≡ ran (lnsocket_act_two ext act2 t.world) t → Step t u
    reads : u ≡ ran (lnsocket_read ext t.world) t → Step t u
    receives : u ≡ ran (lnsocket_recv ext t.world) t → Step t u
    writes :
        (msg : Ptr) (msglen : ℕ)
        → msglen < 2 ^ 16
        → u ≡ ran (lnsocket_write ext msg msglen t.world) t
        → Step t u
    sends :
        (msg_type : ℕ) (payload : List ℕ)
        → u ≡ ran (lnsocket_send ext msg_type payload t.world) t
        → Step t u
    encrypts :
        (msg : Ptr) (msglen : ℕ)
        → msglen < 2 ^ 16
        → u ≡ ran (lnsocket_encrypt ext msg msglen t.world) t
        → Step t u
    decrypts_header :
        (hdr : List ℕ) → u ≡ ran (lnsocket_decrypt_header ext hdr t.world) t → Step t u
    -- A packet has its tag of 16 bytes at least.
    decrypts :
        (packet : List ℕ)
        → 16 ≤ length packet
        → u ≡ ran (lnsocket_decrypt ext packet t.world) t
        → Step t u
    stores :
        (a : Ptr) (bs : List ℕ)
        → (a + length bs ≤ arena) ⊎ (arena + size ≤ a)
        → u ≡ stored a bs t
        → Step t u
    -- What is to come on the connection is not for the user to say.
    goes_on : (net : Net) → u ≡ record t { world = (t.world.0, net) } → Step t u

  pub data Reach (s : Life) : Life → Type 0 where
    here : Reach s s
    next : {t u : Life} → Reach s t → Step t u → Reach s u
