-- ===== src/Tests/Life.antt =====
-- The life of a socket at concrete inputs.
use lnsocket.Prelude.{none, [], ◌∷◌, replicate}
use lnsocket.Memory.{zeroed}
use lnsocket.Net.{Event}
use lnsocket.State.{Lnsocket}
use lnsocket.Session.{lnsocket_setkey}
use lnsocket.Session.Creation.{lnsocket_create-some}
use lnsocket.Receive.{lnsocket_recv}
use lnsocket.Connect.{lnsocket_connect_with}
use lnsocket.Send.{lnsocket_write}
use lnsocket.Life.{Life, ran, stored, with_socket}
use lnsocket.Tests.Toy.{toy}
use lnsocket.Tests.Handshake.{pair}
use lnsocket.Tests.Connect.{sys, host, node_id}
use lnsocket.Tests.Transport.{line}

abbrev fresh : Lnsocket
fresh = (lnsocket_create-some 2000 zeroed 10000).0

-- The user sets a key, connects, stores five bytes, sends them, and waits for an answer, which is no
-- message.
abbrev born : Life
born = record { world = (fresh, line []); theirs = zeroed }

abbrev with_key : Life
with_key = with_socket (lnsocket_setkey toy.secp (replicate 32 5) born.world.0).1 born

abbrev connected : Life
connected =
    ran (lnsocket_connect_with toy sys (pair 4) node_id host none 3000 with_key.world) with_key

abbrev with_text : Life
with_text = stored 500 (104 ∷ 101 ∷ 108 ∷ 108 ∷ 111 ∷ []) connected

abbrev asked : Life
asked = ran (lnsocket_write toy 500 5 with_text.world) with_text

abbrev answered : Life
answered = record asked {
  world = (asked.world.0, line (Event.chunk (1 ∷ 2 ∷ []) ∷ Event.failed ∷ []));
}

abbrev over : Life
over = ran (lnsocket_recv toy answered.world) answered
