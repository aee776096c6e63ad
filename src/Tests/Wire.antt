-- ===== src/Tests/Wire.antt =====
-- The wire formats at concrete inputs.
use lnsocket.Prelude.{
  ℕ, ◌+◌, ◌-◌, ◌%◌, ◌^◌, ◌≤◌, ◌<◌, ◌≡◌, ◌⊎◌, refl, none, some, List, [], ◌∷◌, arith, length,
}
use lnsocket.Memory.{Memory, Ptr, store, load-store, zeroed}
use lnsocket.Cursor.{Buffer}
use lnsocket.Bigsize.{bigsize_put, bigsize_get}
use lnsocket.Bigsize.RoundTrip.{bigsize_get-put}
use lnsocket.Bigsize.Canonical.{bigsize_get_canonical, Encodes}
use lnsocket.Varint.{varint_put, varint_get}
use lnsocket.Varint.RoundTrip.{varint_get-put}
use lnsocket.Message.{
  Tlv, lnsocket_make_ping_msg, lnsocket_make_pong_msg, lnsocket_make_pong_from_ping,
  lnsocket_make_init_msg,
}
use lnsocket.Message.PingPong.{pong_from_ping}
use lnsocket.Message.Init.{init_bytes, make_init_result}

-- A cursor over the addresses 100 to 119 of an empty memory.
abbrev blank : Buffer
blank = record { mem = zeroed; cur = record { start = 100; p = 100; end = 120 } }

abbrev hi : List ℕ
hi = 104 ∷ 105 ∷ []

put_300 : bigsize_put 300 ≡ 0xfd ∷ 1 ∷ 44 ∷ []
unfolding bigsize_put
put_300 = refl

abbrev with_300 : Memory
with_300 = store zeroed 100 (0xfd ∷ 1 ∷ 44 ∷ [])

bigsize_get-put_example : bigsize_get with_300 100 20 ≡ (length (bigsize_put 300), some 300)
bigsize_get-put_example =
    bigsize_get-put with_300 100 20 300 (omega arith)
      (rw put_300 (load-store zeroed 100 (0xfd ∷ 1 ∷ 44 ∷ []))) (rw put_300 (omega arith))

get_300 : bigsize_get with_300 100 3 ≡ (3, some 300)
unfolding bigsize_get store
get_300 = refl

-- 300 in five bytes is refused.
get_padded : bigsize_get (store zeroed 100 (0xfe ∷ 0 ∷ 0 ∷ 1 ∷ 44 ∷ [])) 100 5 ≡ (0, some 300)
unfolding bigsize_get store
get_padded = refl

bytes_300 : (x : Ptr) → with_300 x < 256
unfolding store
bytes_300 x = ground arith

bigsize_get_canonical_example : (3 ≤ 3) × Encodes with_300 100 3 300
bigsize_get_canonical_example = bigsize_get_canonical with_300 100 3 2 300 bytes_300 get_300

varint_300 : varint_put 300 ≡ 0xfd ∷ 44 ∷ 1 ∷ []
unfolding varint_put
varint_300 = refl

varint_get-put_example :
    varint_get (store zeroed 100 (0xfd ∷ 44 ∷ 1 ∷ [])) 100 20 ≡ (length (varint_put 300), some 300)
varint_get-put_example =
    varint_get-put (store zeroed 100 (0xfd ∷ 44 ∷ 1 ∷ [])) 100 20 300 (omega arith)
      (rw varint_300 (load-store zeroed 100 (0xfd ∷ 44 ∷ 1 ∷ []))) (rw varint_300 (omega arith))

pong_from_ping_example :
    let (len, sent) = lnsocket_make_ping_msg zeroed 100 20 9 2 in
    lnsocket_make_pong_from_ping sent 200 20 (100 + 2) (len - 2)
    ≡ lnsocket_make_pong_msg sent 200 20 9
pong_from_ping_example = pong_from_ping zeroed 100 20 9 2 200 20 (omega arith) (omega arith)

abbrev one_tlv : List Tlv
one_tlv = record { type = 1; value = 7 ∷ 8 ∷ [] } ∷ []

init_length_20 : length (init_bytes (0 ∷ []) (1 ∷ 2 ∷ []) one_tlv) ≡ 13
unfolding bigsize_put
init_length_20 = refl

make_init_result_example :
    ((length (init_bytes (0 ∷ []) (1 ∷ 2 ∷ []) one_tlv) < 20)
      × (lnsocket_make_init_msg zeroed 100 20 (0 ∷ []) (1 ∷ 2 ∷ []) one_tlv ≡ (
        some (length (init_bytes (0 ∷ []) (1 ∷ 2 ∷ []) one_tlv) % 2 ^ 16),
        store zeroed 100 (init_bytes (0 ∷ []) (1 ∷ 2 ∷ []) one_tlv),
      )))
    ⊎ ((20 ≤ length (init_bytes (0 ∷ []) (1 ∷ 2 ∷ []) one_tlv))
        × ((lnsocket_make_init_msg zeroed 100 20 (0 ∷ []) (1 ∷ 2 ∷ []) one_tlv).0 ≡ none))
make_init_result_example = make_init_result zeroed 100 20 (0 ∷ []) (1 ∷ 2 ∷ []) one_tlv
