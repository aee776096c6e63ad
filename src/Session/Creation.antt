-- ===== src/Session/Creation.antt =====
-- A new socket.
use lnsocket.Prelude.{
  ℕ, ◌+◌, ◌≤◌, ◌<◌, ◌≡◌, ◌⊎◌, inl, inr, refl, sym, ap, ◌∙◌, true, some, replicate, length,
  length-replicate, arith, le→ltb,
}
use mathlib.Core.Option.{some-injective}
use lnsocket.Memory.{Memory, Ptr, store, store_below, store_above}
use lnsocket.Cursor.{Cursor, Buffer, make_cursor, cursor_alloc}
use lnsocket.Cursor.Alloc.{after_slice, slice-after_slice}
use lnsocket.State.{Lnsocket}
use lnsocket.Session.{
  msgbuf_mem, error_mem, zero_key, with_struct, with_msgbuf, socket_of, lnsocket_create,
}

alloc-some :
    (m : Memory) (a : Ptr) (size stop : ℕ)
    → a + size ≤ stop
    → cursor_alloc (record { mem = m; cur = make_cursor a stop }) size ≡ (
      some a,
      record {
        mem = store m a (replicate size 0);
        cur = record { start = a; p = a + size; end = stop };
      },
    )
unfolding cursor_alloc make_cursor
alloc-some m a size stop room = rw (le→ltb stop (a + size) room)

-- The arena behind the struct, zeroed at first.
abbrev behind_struct : ℕ → Memory → Ptr → Buffer
behind_struct size m arena = record {
  mem = store m arena (replicate size 0);
  cur = record { start = arena; p = arena + size; end = arena + (msgbuf_mem + error_mem + size) };
}

-- The two slices.
create_steps :
    (size : ℕ) (m : Memory) (arena : Ptr)
    → lnsocket_create size m (some arena)
      ≡ socket_of
          (record { start = arena + size; p = arena + size; end = arena + size + msgbuf_mem })
          (
            some (record {
              start = arena + size + msgbuf_mem;
              p = arena + size + msgbuf_mem;
              end = arena + size + msgbuf_mem + error_mem;
            }),
            after_slice (after_slice (behind_struct size m arena) msgbuf_mem) error_mem,
          )
unfolding lnsocket_create with_struct with_msgbuf make_cursor
create_steps size m arena =
    let stop : ℕ = arena + (msgbuf_mem + error_mem + size) in
    let b = behind_struct size m arena in
    let room1 : arena + size + msgbuf_mem ≤ stop = omega arith in
    let room2 : arena + size + msgbuf_mem + error_mem ≤ stop = omega arith in
    ap with_struct (alloc-some m arena size stop (omega arith))
    ∙ ap with_msgbuf (slice-after_slice b msgbuf_mem room1)
    ∙ ap (socket_of _) (slice-after_slice (after_slice b msgbuf_mem) error_mem room2)

-- A socket is created whenever `malloc` gives an arena. Its message buffer has 131072 bytes and its
-- error log 4096, both empty; they lie behind the struct and one another, and they end where the
-- arena ends, of which nothing is left. The log is enabled, no connection is open, and no key is set.
pub lnsocket_create-some :
    (size : ℕ) (m : Memory) (arena : Ptr)
    → (ln : Lnsocket) × (lnsocket_create size m (some arena) ≡ some ln)
      × (ln.msgbuf ≡ record { start = arena + size; p = arena + size; end = arena + size + 131072 })
      × (ln.errs.cur
          ≡ record { start = ln.msgbuf.end; p = ln.msgbuf.end; end = ln.msgbuf.end + 4096 })
      × (ln.mem ≡ record { start = arena; p = ln.errs.cur.end; end = ln.errs.cur.end })
      × (ln.errs.enabled ≡ true)
      × (ln.socket ≡ 0)
      × (ln.key ≡ zero_key)
unfolding socket_of
lnsocket_create-some size m arena =
    let all : arena + (msgbuf_mem + error_mem + size) ≡ arena + size + msgbuf_mem + error_mem =
      omega arith in
    (
      _,
      create_steps size m arena,
      refl,
      refl,
      ap
          (λ (e : Ptr).
            let c : Cursor = record {
              start = arena;
              p = arena + size + msgbuf_mem + error_mem;
              end = e;
            } in
            c)
          all,
      refl,
      refl,
      refl,
    )

-- Where the buffers of a new socket are, and that nothing outside the arena is written.
pub record Created (size : ℕ) (m : Memory) (arena : Ptr) (ln : Lnsocket) : Type 0 where
  pub msgbuf :
      ln.msgbuf ≡ record { start = arena + size; p = arena + size; end = arena + size + msgbuf_mem }
  pub errs : ln.errs.cur ≡ record {
    start = arena + size + msgbuf_mem;
    p = arena + size + msgbuf_mem;
    end = arena + size + msgbuf_mem + error_mem;
  }
  pub same :
      (x : Ptr) → (x < arena) ⊎ (arena + size + msgbuf_mem + error_mem ≤ x) → ln.memory x ≡ m x

-- The two slices write in themselves.
sliced_same :
    (b : Buffer) (x : Ptr)
    → (x < b.cur.p) ⊎ (b.cur.p + msgbuf_mem + error_mem ≤ x)
    → (after_slice (after_slice b msgbuf_mem) error_mem).mem x ≡ b.mem x
sliced_same b x out =
    let n : length (replicate {A = ℕ} msgbuf_mem 0) ≡ msgbuf_mem =
      length-replicate {A = ℕ} msgbuf_mem 0 in
    let k : length (replicate {A = ℕ} error_mem 0) ≡ error_mem =
      length-replicate {A = ℕ} error_mem 0 in
    let m' = store b.mem b.cur.p (replicate msgbuf_mem 0) in
    elim out [
      | inl below ↦
          store_below m' (b.cur.p + msgbuf_mem) (replicate error_mem 0) x (omega (arith, below))
          ∙ store_below b.mem b.cur.p (replicate msgbuf_mem 0) x below
      | inr above ↦
          store_above m' (b.cur.p + msgbuf_mem) (replicate error_mem 0) x (omega (arith, above, k))
          ∙ store_above b.mem b.cur.p (replicate msgbuf_mem 0) x (omega (arith, above, n))
    ]

pub lnsocket_create-Created :
    (size : ℕ) (m : Memory) (arena : Ptr) (ln : Lnsocket)
    → lnsocket_create size m (some arena) ≡ some ln
    → Created size m arena ln
unfolding socket_of
lnsocket_create-Created size m arena ln h =
    let is = sym (create_steps size m arena) ∙ h in
    let same = some-injective _ _ is in
    rw (← same) (record {
      msgbuf = refl;
      errs = refl;
      same = λ x out. elim out [
        | inl below ↦
            sliced_same (behind_struct size m arena) x (inl (omega (arith, below)))
            ∙ store_below m arena (replicate size 0) x below
        | inr above ↦
            sliced_same (behind_struct size m arena) x (inr above)
            ∙ store_above m arena (replicate size 0) x
                (omega (arith, above, length-replicate {A = ℕ} size 0))
      ];
    })
