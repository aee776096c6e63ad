-- ===== src/Commando.antt =====
-- commando.c: the request for a remote procedure call.
pub mod Request
use lnsocket.Prelude.{ℕ, ◌+◌, List, [], ◌∷◌, ◌++◌, Option, none, some}
use lnsocket.Memory.{Memory, Ptr}
use lnsocket.Cursor.{Buffer, cursor_push_u16, cursor_push_u64, cursor_push_str, ◌&&>◌}
use lnsocket.Message.{over, message_length}

abbrev pub commando_cmd : ℕ
commando_cmd = 0x4c4f

-- {"method":"
abbrev pub open_method : List ℕ
open_method = 123 ∷ 34 ∷ 109 ∷ 101 ∷ 116 ∷ 104 ∷ 111 ∷ 100 ∷ 34 ∷ 58 ∷ 34 ∷ []

-- ","params":
abbrev pub open_params : List ℕ
open_params = 34 ∷ 44 ∷ 34 ∷ 112 ∷ 97 ∷ 114 ∷ 97 ∷ 109 ∷ 115 ∷ 34 ∷ 58 ∷ []

-- ,"rune":"
abbrev pub open_rune : List ℕ
open_rune = 44 ∷ 34 ∷ 114 ∷ 117 ∷ 110 ∷ 101 ∷ 34 ∷ 58 ∷ 34 ∷ []

-- ","id":"d0","jsonrpc":"2.0"}
abbrev pub close_request : List ℕ
close_request =
    34 ∷ 44 ∷ 34 ∷ 105 ∷ 100 ∷ 34 ∷ 58 ∷ 34 ∷ 100 ∷ 48 ∷ 34 ∷ 44 ∷ 34 ∷ 106 ∷ 115 ∷ 111 ∷ 110 ∷ 114
    ∷ 112 ∷ 99 ∷ 34 ∷ 58 ∷ 34 ∷ 50 ∷ 46 ∷ 48 ∷ 34 ∷ 125 ∷ []

-- []
abbrev pub empty_params : List ℕ
empty_params = 91 ∷ 93 ∷ []

-- A null pointer or an empty string stands for no parameters.
unfoldable pub params_or_empty : Option (List ℕ) → List ℕ
params_or_empty none = empty_params
params_or_empty (some []) = empty_params
params_or_empty (some (c ∷ params)) = c ∷ params

-- The strings are given by their bytes before the terminating zero.
unfoldable pub commando_make_rpc_msg :
    Memory → List ℕ → Option (List ℕ) → List ℕ → ℕ → Ptr → ℕ → ℕ × Memory
commando_make_rpc_msg m method params rune req_id buf buflen = message_length (
    (cursor_push_u16 commando_cmd
        &&> cursor_push_u64 req_id
        &&> cursor_push_str open_method
        &&> cursor_push_str method
        &&> cursor_push_str open_params
        &&> cursor_push_str (params_or_empty params)
        &&> cursor_push_str open_rune
        &&> cursor_push_str rune
        &&> cursor_push_str close_request)
      (over m buf buflen))
