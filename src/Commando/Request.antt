-- ===== src/Commando/Request.antt =====
-- The layout of a commando request.
use lnsocket.Prelude.{ℕ, ◌+◌, ◌≤◌, ◌<◌, ◌≡◌, ◌⊎◌, List, ◌++◌, Option, Bool, length, arith}
use lnsocket.Prelude.Bytes.{be16_bytes, be64_bytes}
use lnsocket.Memory.{Memory, Ptr, store}
use lnsocket.Cursor.{Buffer, cursor_push_u16, cursor_push_u64, cursor_push_str, ◌&&>◌}
use lnsocket.Cursor.Push.{
  Pushes, &&>-Pushes, cursor_push_u16-Pushes, cursor_push_u64-Pushes, cursor_push_str-Pushes,
}
use lnsocket.Message.Layout.{message_fits, IsWritten, message-IsWritten, message_full, message_safe}
use lnsocket.Commando.{
  commando_cmd, open_method, open_params, open_rune, close_request, params_or_empty,
  commando_make_rpc_msg,
}

-- The JSON text of a request.
abbrev pub request_text : List ℕ → Option (List ℕ) → List ℕ → List ℕ
request_text method params rune =
    open_method
    ++ (method
        ++ (open_params ++ (params_or_empty params ++ (open_rune ++ (rune ++ close_request)))))

-- Type, request id, text.
abbrev pub request_bytes : List ℕ → Option (List ℕ) → List ℕ → ℕ → List ℕ
request_bytes method params rune req_id =
    be16_bytes commando_cmd ++ (be64_bytes req_id ++ request_text method params rune)

-- A string in front.
str-Pushes :
    {f : Buffer → Bool × Buffer} {bs : List ℕ} (str : List ℕ)
    → Pushes f bs 1
    → Pushes (cursor_push_str str &&> f) (str ++ bs) 1
str-Pushes str pf = &&>-Pushes {u = 1} (cursor_push_str-Pushes str) pf (omega arith)

request-Pushes :
    (method : List ℕ) (params : Option (List ℕ)) (rune : List ℕ) (req_id : ℕ)
    → Pushes
        (cursor_push_u16 commando_cmd
          &&> cursor_push_u64 req_id
          &&> cursor_push_str open_method
          &&> cursor_push_str method
          &&> cursor_push_str open_params
          &&> cursor_push_str (params_or_empty params)
          &&> cursor_push_str open_rune
          &&> cursor_push_str rune
          &&> cursor_push_str close_request)
        (request_bytes method params rune req_id)
        1
request-Pushes method params rune req_id =
    &&>-Pushes {u = 1} (cursor_push_u16-Pushes commando_cmd)
      (&&>-Pushes {u = 1} (cursor_push_u64-Pushes req_id)
        (str-Pushes open_method (
          str-Pushes method (
            str-Pushes open_params (
              str-Pushes (params_or_empty params)
                (str-Pushes open_rune (str-Pushes rune (cursor_push_str-Pushes close_request)))))))
        (omega arith))
      (omega arith)

module _ (m : Memory) (method : List ℕ) (params : Option (List ℕ)) (rune : List ℕ) (req_id : ℕ)
    (buf : Ptr) (buflen : ℕ) where
  -- In a buffer with a byte to spare the request is written: its type, its id in 8 bytes, and the
  -- JSON text with the method, the parameters and the rune; and its length is returned.
  pub make_rpc_msg_fits :
      length (request_bytes method params rune req_id) < buflen
      → commando_make_rpc_msg m method params rune req_id buf buflen ≡ (
        length (request_bytes method params rune req_id),
        store m buf (request_bytes method params rune req_id),
      )
  unfolding commando_make_rpc_msg
  make_rpc_msg_fits room =
      message_fits (request-Pushes method params rune req_id) m buf buflen (omega arith)

  -- In a buffer that the request fills or exceeds, 0 is returned.
  pub make_rpc_msg_full :
      buflen ≤ length (request_bytes method params rune req_id)
      → (commando_make_rpc_msg m method params rune req_id buf buflen).0 ≡ 0
  unfolding commando_make_rpc_msg
  make_rpc_msg_full full =
      message_full (request-Pushes method params rune req_id) m buf buflen (omega arith)

  -- Whether the request fits or not, a byte outside the buffer keeps its value.
  pub make_rpc_msg_safe :
      (x : Ptr)
      → (x < buf) ⊎ (buf + buflen ≤ x)
      → (commando_make_rpc_msg m method params rune req_id buf buflen).1 x ≡ m x
  unfolding commando_make_rpc_msg
  make_rpc_msg_safe x out =
      message_safe (request-Pushes method params rune req_id) m buf buflen x out

  -- The request is its type, its id in 8 bytes, and the JSON text with the method, the parameters and
  -- the rune. In a buffer with a byte to spare it is written and its length returned, and in any smaller one
  -- the answer is 0. Either way a byte outside the buffer keeps its value.
  pub make_rpc_msg-IsWritten :
      (x : Ptr)
      → IsWritten
          (commando_make_rpc_msg m method params rune req_id buf buflen)
          m
          buf
          buflen
          (request_bytes method params rune req_id)
          1
          x
  unfolding commando_make_rpc_msg
  make_rpc_msg-IsWritten x =
      message-IsWritten (request-Pushes method params rune req_id) m buf buflen x
