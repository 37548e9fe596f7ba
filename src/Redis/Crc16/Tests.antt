-- ===== src/Redis/Crc16/Tests.antt =====
-- Known checksums and slots, and an instance of each theorem.
use aegon.Base.{◌%◌, ◌*◌, ◌≡◌, refl, [], ◌∷◌, ◌++◌, arith, get_or}
use aegon.Redis.Crc16.{crc16_table, crc16, crc16_from, key_slot}
use aegon.Redis.Crc16.Slots.{key_slot-hash_tag, divide, crc16_table-divide}

-- The check value of the cluster's specification: "123456789" has the checksum 0x31c3.
check_value : crc16 (b'1' ∷ b'2' ∷ b'3' ∷ b'4' ∷ b'5' ∷ b'6' ∷ b'7' ∷ b'8' ∷ b'9' ∷ []) ≡ 0x31c3
unfolding crc16_from
check_value = refl

key_slot-hash_tag_example :
    key_slot ((b'x' ∷ []) ++ (b'{' ∷ ((b'u' ∷ b'7' ∷ []) ++ (b'}' ∷ b'y' ∷ []))))
    ≡ crc16 (b'u' ∷ b'7' ∷ []) % 16384
key_slot-hash_tag_example =
    key_slot-hash_tag (b'x' ∷ []) b'u' (b'7' ∷ []) (b'y' ∷ []) (refl, tt) (refl, (refl, tt))

crc16_table-divide_example : get_or crc16_table 200 0 ≡ divide 8 (200 * 256)
crc16_table-divide_example = crc16_table-divide 200 (omega arith)
