-- ===== src/Life/Confined.antt =====
-- What lnsocket.c does to memory over the life of a socket.
use lnsocket.Prelude.{ℕ, ◌+◌, ◌≤◌, ◌<◌, ◌≡◌, ◌⊎◌}
use lnsocket.Memory.{Memory, Ptr}
use lnsocket.Net.{Net}
use lnsocket.Bounds.{IsSound}
use lnsocket.Bounds.Quiet.{Quiet}
use lnsocket.Session.{msgbuf_mem, error_mem}
use lnsocket.Life.{Life}

module _ (size : ℕ) (arena : Ptr) where
  -- Where the two buffers are, and that outside the arena is what the user put there.
  pub record IsOwn (t : Life) : Type 0 where
    pub sound : IsSound t.world.0
    pub start : t.world.0.msgbuf.start ≡ arena + size
    pub end : t.world.0.msgbuf.end ≡ arena + size + msgbuf_mem
    pub errs_start : t.world.0.errs.cur.start ≡ arena + size + msgbuf_mem
    pub errs_end : t.world.0.errs.cur.end ≡ arena + size + msgbuf_mem + error_mem
    pub same :
        (x : Ptr)
        → (x < arena) ⊎ (arena + size + msgbuf_mem + error_mem ≤ x)
        → t.world.0.memory x ≡ t.theirs x
