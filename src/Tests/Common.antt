-- ===== src/Tests/Common.antt =====
-- The helpers of src/common on small inputs.
use xq.Base.{ℕ, ◌+◌, ◌-◌, ◌^◌, ◌≤◌, ◌≡◌, ◌↔◌, refl, List, [], ◌∷◌, true, arith}
use xq.Common.Checked.{range_ok, range_ok_sz, range_ok_iff}
use xq.Common.Crc32c.{crc32c_byte, crc32c_loop, crc32c_update, crc32c}
use xq.Common.Crc32c.Table.{crc32c_tab}
use xq.Common.Crc32c.Laws.{crc32c_update-append}
use xq.Common.Crc32c.Reference.{crc32c_reference, crc32c_update-eq-reference}

-- "123456789"
abbrev digits : List ℕ
digits = 0x31 ∷ 0x32 ∷ 0x33 ∷ 0x34 ∷ 0x35 ∷ 0x36 ∷ 0x37 ∷ 0x38 ∷ 0x39 ∷ []

-- The check value that CRC-32C is published with.
crc32c-digits : crc32c digits ≡ 0xe306_9283
unfolding crc32c crc32c_update crc32c_loop crc32c_byte crc32c_tab
crc32c-digits = refl

range_ok_iff_example :
    ((range_ok 8 (2 ^ 64 - 1) 100 ≡ true) ↔ (8 + (2 ^ 64 - 1) ≤ 100))
    × (range_ok_sz 8 (2 ^ 64 - 1) 100 ≡ range_ok 8 (2 ^ 64 - 1) 100)
range_ok_iff_example = range_ok_iff 8 (2 ^ 64 - 1) 100 (omega arith) (omega arith) (omega arith)

crc32c_update-append_example :
    crc32c_update (crc32c_update 0 (1 ∷ 2 ∷ [])) (3 ∷ []) ≡ crc32c_update 0 (1 ∷ 2 ∷ 3 ∷ [])
crc32c_update-append_example = crc32c_update-append 0 (1 ∷ 2 ∷ []) (3 ∷ []) (omega arith)

crc32c_update-eq-reference_example : crc32c_update 5 digits ≡ crc32c_reference 5 digits
crc32c_update-eq-reference_example = crc32c_update-eq-reference 5 digits (omega arith)
