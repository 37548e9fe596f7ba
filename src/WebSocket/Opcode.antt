-- ===== src/WebSocket/Opcode.antt =====
-- src/http/websocket/WebSocketFrame.h: opcodes and close codes. `static_cast<Opcode>` makes an opcode
-- of any four bits, so an opcode is its number.
use Prim.Native.Nat.{bit_and}
use aegon.Base.{ℕ, Bool, true, false, not, ◌&&◌, ◌||◌, leb, ◌==◌, if◌then◌else◌}

abbrev pub continuation : ℕ
continuation = 0x0

abbrev pub text : ℕ
text = 0x1

abbrev pub binary : ℕ
binary = 0x2

abbrev pub close : ℕ
close = 0x8

abbrev pub ping : ℕ
ping = 0x9

abbrev pub pong : ℕ
pong = 0xa

-- `(x & mask) != 0`
abbrev pub has_bit : ℕ → ℕ → Bool
has_bit x mask = not (bit_and x mask == 0)

unfoldable pub is_control_opcode : ℕ → Bool
is_control_opcode op = has_bit op 0x8

-- The six opcodes that `parse_frame_header` accepts.
unfoldable pub is_valid_op : ℕ → Bool
is_valid_op op =
    op == continuation
    || (op == text || (op == binary || (op == close || (op == ping || op == pong))))

unfoldable pub is_valid_close_code : ℕ → Bool
is_valid_close_code code =
    if code == 1000
      || (code == 1001
          || (code == 1002
              || (code == 1003
                  || (code == 1007
                      || (code == 1008
                          || (code == 1009
                              || (code == 1010
                                  || (code == 1011
                                      || (code == 1012 || (code == 1013 || code == 1014))))))))))
    then true
    else if leb 3000 code && leb code 4999
    then true
    else false
