-- ===== src/Tests/Features.antt =====
-- Feature bits at concrete inputs.
use lnsocket.Prelude.{◌+◌, ◌/◌, ◌≤◌, ◌<◌, ◌≡◌, ◌⊎◌, refl, true, false}
use lnsocket.Memory.{Memory, zeroed, load}
use lnsocket.Features.{FeatureSet, lnsocket_set_feature_bit}
use lnsocket.Features.Bits.{set_feature_bit_result}

set_feature_bit_result_example :
    let r = lnsocket_set_feature_bit zeroed 100 2 0 9 in
    ((2 ≤ 9 / 8) × (r ≡ record { done = false; newlen = 0; mem = zeroed }))
    ⊎ ((9 / 8 < 2)
        × (r.done ≡ true)
        × (9 / 8 < r.newlen)
        × (r.newlen ≤ 2)
        × (((100 ≤ 102) × (102 < 100 + 2)) ⊎ (r.mem 102 ≡ zeroed 102)))
set_feature_bit_result_example = set_feature_bit_result zeroed 100 2 0 9 102

-- After bit 8, which stands in the first of two bytes, bit 0 shortens the field to that byte.
second_bit_shortens :
    (lnsocket_set_feature_bit (lnsocket_set_feature_bit zeroed 100 2 0 8).mem 100 2 2 0).newlen ≡ 1
unfolding lnsocket_set_feature_bit lnsocket.Features.highest_loop lnsocket.Memory.update load
second_bit_shortens = refl
