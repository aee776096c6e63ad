-- ===== src/Tests/Text.antt =====
-- Hexadecimal strings and commando requests at concrete inputs.
use lnsocket.Prelude.{ℕ, ◌≡◌, refl, true, none, List, [], ◌∷◌, length, All, map, arith}
use lnsocket.Prelude.Bytes.{IsByte}
use lnsocket.Memory.{zeroed}
use lnsocket.Hex.{hex_decode}
use lnsocket.Hex.RoundTrip.{hex, lower, hex_decode-hex, hex_decode_sound}
use lnsocket.Message.Layout.{IsWritten}
use lnsocket.Commando.{commando_make_rpc_msg}
use lnsocket.Commando.Request.{request_bytes, make_rpc_msg-IsWritten}

hex_decode-hex_example : hex_decode (hex (2 ∷ 171 ∷ [])) 2 ≡ (true, 2 ∷ 171 ∷ [])
hex_decode-hex_example = hex_decode-hex (2 ∷ 171 ∷ []) (omega arith, (omega arith, tt))

-- "aB07"
abbrev mixed : List ℕ
mixed = 97 ∷ 66 ∷ 48 ∷ 55 ∷ []

mixed_decodes : hex_decode mixed 2 ≡ (true, 171 ∷ 7 ∷ [])
unfolding hex_decode lnsocket.Hex.char_to_hex
mixed_decodes = refl

mixed_ok : (hex_decode mixed 2).0 ≡ true
unfolding hex_decode lnsocket.Hex.char_to_hex
mixed_ok = refl

hex_decode_sound_example :
    let bs = (hex_decode mixed 2).1 in (map lower mixed ≡ hex bs) × (length bs ≡ 2) × All IsByte bs
hex_decode_sound_example = hex_decode_sound mixed 2 mixed_ok

-- "getinfo" with a rune of one letter.
abbrev getinfo : List ℕ
getinfo = 103 ∷ 101 ∷ 116 ∷ 105 ∷ 110 ∷ 102 ∷ 111 ∷ []

make_rpc_msg-IsWritten_example :
    IsWritten
      (commando_make_rpc_msg zeroed getinfo none (114 ∷ []) 1 100 200)
      zeroed
      100
      200
      (request_bytes getinfo none (114 ∷ []) 1)
      1
      300
make_rpc_msg-IsWritten_example = make_rpc_msg-IsWritten zeroed getinfo none (114 ∷ []) 1 100 200 300
