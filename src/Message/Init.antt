-- ===== src/Message/Init.antt =====
-- Init messages and TLV records.
use lnsocket.Prelude.{
  ℕ, ◌+◌, ◌-◌, ◌%◌, ◌^◌, ◌≤◌, ◌<◌, ◌≡◌, ◌⊎◌, inl, inr, refl, Bool, true, false, some, none, List,
  [], ◌∷◌, ◌++◌, arith, length, replicate,
}
use lnsocket.Prelude.Bytes.{be16_bytes}
use Prim.Native.Nat.{max}
use native.Mathlib.Decide.{dec_lt}
use lnsocket.Memory.{Memory, Ptr, store}
use lnsocket.Cursor.{make_cursor, cursor_push, cursor_push_u16, ◌&&>◌, Buffer}
use lnsocket.Cursor.Push.{Pushes, &&>-Pushes, cursor_push-Pushes, cursor_push_u16-Pushes}
use lnsocket.Message.{
  Tlv, over, wire_init, init_length, cursor_push_tlvs, lnsocket_make_init_msg,
  lnsocket_make_default_initmsg,
}
use lnsocket.Message.Layout.{tlvs_bytes, tlvs_slack, cursor_push_tlvs-Pushes}

-- The init message of BOLT 1: type, both feature fields behind their lengths, TLV records.
abbrev pub init_bytes : List ℕ → List ℕ → List Tlv → List ℕ
init_bytes gf f tlvs =
    be16_bytes wire_init
    ++ (be16_bytes (length gf) ++ (gf ++ (be16_bytes (length f) ++ (f ++ tlvs_bytes tlvs))))

slack_one : (tlvs : List Tlv) → 1 ≡ max (tlvs_slack tlvs) (1 - length (tlvs_bytes tlvs))
slack_one [] = refl
slack_one (tlv ∷ tlvs) = omega arith

init-Pushes :
    (gf f : List ℕ) (tlvs : List Tlv)
    → Pushes
        (cursor_push_u16 wire_init
          &&> cursor_push_u16 (length gf)
          &&> cursor_push gf
          &&> cursor_push_u16 (length f)
          &&> cursor_push f
          &&> cursor_push_tlvs tlvs)
        (init_bytes gf f tlvs)
        1
init-Pushes gf f tlvs =
    &&>-Pushes (cursor_push_u16-Pushes wire_init)
      (&&>-Pushes {u = 1} (cursor_push_u16-Pushes (length gf))
        (&&>-Pushes {u = 1} (cursor_push-Pushes gf)
          (&&>-Pushes {u = 1} (cursor_push_u16-Pushes (length f))
            (&&>-Pushes {u = 1} (cursor_push-Pushes f) (cursor_push_tlvs-Pushes tlvs)
              (slack_one tlvs))
            (omega arith))
          (omega arith))
        (omega arith))
      (omega arith)

module _ (m : Memory) (buf : Ptr) (buflen : ℕ) (gf f : List ℕ) (tlvs : List Tlv) where
  -- Where the message leaves a byte of the buffer free, it is written as BOLT 1 lays it out, and its
  -- length is stored, as a u16.
  pub make_init_fits :
      length (init_bytes gf f tlvs) < buflen
      → lnsocket_make_init_msg m buf buflen gf f tlvs
        ≡ (some (length (init_bytes gf f tlvs) % 2 ^ 16), store m buf (init_bytes gf f tlvs))
  unfolding lnsocket_make_init_msg make_cursor
  make_init_fits room =
      let n : buf + length (init_bytes gf f tlvs) - buf ≡ length (init_bytes gf f tlvs) =
        omega arith in
      rw ((init-Pushes gf f tlvs).fits (over m buf buflen) (omega arith)) (rw n)

  no_length : (r : Bool × Buffer) → r.0 ≡ false → (init_length r).0 ≡ none
  unfolding init_length
  no_length (true, b) h = cc
  no_length (false, b) h = refl

  -- In a buffer that the message fills or exceeds, the answer is 0.
  pub make_init_full :
      buflen ≤ length (init_bytes gf f tlvs)
      → (lnsocket_make_init_msg m buf buflen gf f tlvs).0 ≡ none
  unfolding lnsocket_make_init_msg make_cursor
  make_init_full full =
      no_length _ ((init-Pushes gf f tlvs).full (over m buf buflen) (omega arith) (omega arith))

  -- Where the message leaves a byte of the buffer free, it is written as BOLT 1 lays it out, and its
  -- length is stored, as a u16; in a buffer that it fills or exceeds, the answer is 0.
  pub make_init_result :
      ((length (init_bytes gf f tlvs) < buflen)
        × (lnsocket_make_init_msg m buf buflen gf f tlvs
            ≡ (some (length (init_bytes gf f tlvs) % 2 ^ 16), store m buf (init_bytes gf f tlvs))))
      ⊎ ((buflen ≤ length (init_bytes gf f tlvs))
          × ((lnsocket_make_init_msg m buf buflen gf f tlvs).0 ≡ none))
  make_init_result = elim (dec_lt (length (init_bytes gf f tlvs)) buflen) [
    | yes room ↦ inl (room, make_init_fits room)
    | no full ↦ inr (omega arith, make_init_full (omega arith))
  ]

-- In a buffer of 14 bytes or more the default message has 13 bytes: the type 16, two bytes of global features and five of features,
-- all zero, behind their lengths, and no TLV record.
pub make_default_init :
    (m : Memory) (buf : Ptr) (buflen : ℕ)
    → 13 < buflen
    → lnsocket_make_default_initmsg m buf buflen
      ≡ (13, store m buf (0 ∷ 16 ∷ 0 ∷ 2 ∷ 0 ∷ 0 ∷ 0 ∷ 5 ∷ 0 ∷ 0 ∷ 0 ∷ 0 ∷ 0 ∷ []))
unfolding lnsocket_make_default_initmsg
make_default_init m buf buflen room =
    rw (make_init_fits m buf buflen (replicate 2 0) (replicate 5 0) [] room) refl
