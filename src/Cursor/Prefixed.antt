-- ===== src/Cursor/Prefixed.antt =====
-- Strings with their length before them, from one cursor into the region of another.
use lnsocket.Prelude.{
  ℕ, ◌+◌, ◌^◌, ◌≤◌, ◌<◌, ◌≡◌, ◌⊎◌, inl, inr, refl, ap, ◌∙◌, Bool-cases, true, false, List, [], ◌∷◌,
  ◌++◌, ◌==◌, ==_iff, arith, length, length-append, append-nil, le→ltb, lt→ltb,
}
use native.Mathlib.Decide.{dec_le, dec_lt}
use lnsocket.Memory.{store, load, load-store, load_split}
use lnsocket.Cursor.{Cursor, Buffer, cursor_pull, cursor_push_byte, push_sized_str}
use lnsocket.Cursor.Push.{written, written-append, cursor_push-Pushes, cursor_push_byte-Pushes}
use lnsocket.Cursor.Leb.{push_prefixed_str}
use lnsocket.Cursor.LebPush.{length-groups}
use lnsocket.Cursor.LebPull.{varint_bytes, push_varint-fits, push_varint-full, pull_varint-load}
use lnsocket.Cursor.Copy.{
  Copying, Pulled, Prefixed, terminated, pull_data_into_cursor, pull_text, pull_prefixed_str,
}

-- A nonempty encoding is not the answer 0.
varint_bytes_some : (n : ℕ) → (length (varint_bytes n) == 0) ≡ false
varint_bytes_some n =
    let (lo, _) = length-groups 4 n in
    elim (Bool-cases (length (varint_bytes n) == 0)) [
      | inl e ↦ absurd (omega (arith, lo, (==_iff (length (varint_bytes n)) 0).0 e))
      | inr e ↦ e
    ]

-- What `push_prefixed_str` wrote where it succeeded.
push_prefixed_str-written :
    (str : List ℕ) (b : Buffer)
    → length str < 2 ^ 31
    → b.cur.p ≤ b.cur.end
    → (push_prefixed_str str b).0 ≡ true
    → ((push_prefixed_str str b).1 ≡ written b (varint_bytes (length str) ++ str))
      × (b.cur.p + length (varint_bytes (length str)) + length str < b.cur.end)
unfolding push_prefixed_str push_sized_str
push_prefixed_str-written str b small ok done =
    let n = length str in
    let k = length (varint_bytes n) in
    elim (dec_le (b.cur.p + k) b.cur.end) [
      | no short ↦
          absurd (let r = push_varint-full n b small ok (omega arith) in let d = rw r at done in cc)
      | yes room ↦
          let w = written b (varint_bytes n) in
          let r = push_varint-fits n b small room in
          let done' = rw (r, varint_bytes_some n) at done in
          elim (dec_lt (b.cur.p + k + n) b.cur.end) [
            | yes fits ↦
                let p = (cursor_push-Pushes str).fits w (omega arith) in
                (rw (r, varint_bytes_some n, p) (written-append b (varint_bytes n) str), fits)
            | no full ↦ absurd (let p = (cursor_push-Pushes str).full w room (omega arith) in cc)
          ]
    ]

-- Where a text and its length stand at the cursor, `pull_varint` leaves the cursor at the text.
pull_varint_behind :
    (str : List ℕ) (s : Copying)
    → length str < 2 ^ 31
    → s.cur.p + length (varint_bytes (length str)) + length str ≤ s.cur.end
    → load s.mem s.cur.p (length (varint_bytes (length str) ++ str))
      ≡ varint_bytes (length str) ++ str
    → pull_prefixed_str s
      ≡ pull_text
          (length str)
          (record s { cur = record s.cur { p = s.cur.p + length (varint_bytes (length str)) } })
unfolding pull_prefixed_str
pull_varint_behind str s small room l =
    let n = length str in
    let (front, _) = load_split s.mem s.cur.p (varint_bytes n) str l in
    let r = pull_varint-load n (record { mem = s.mem; cur = s.cur }) small (omega arith) front in
    rw (r, varint_bytes_some n, lt→ltb n (2 ^ 31) small) refl

-- What `pull_text` leaves where the text stands at the cursor.
abbrev pub pulled : List ℕ → List ℕ → Copying → Copying
pulled str terminator s = record {
  mem = store s.mem s.dest.p (str ++ terminator);
  cur = record s.cur { p = s.cur.p + length str };
  dest = record s.dest { p = s.dest.p + length (str ++ terminator) };
}

pull_data :
    (str : List ℕ) (s : Copying)
    → s.cur.p + length str ≤ s.cur.end
    → s.dest.p + length str ≤ s.dest.end
    → load s.mem s.cur.p (length str) ≡ str
    → pull_text (length str) s
      ≡ terminated (
        Pulled.data_at s.dest.p,
        record {
          mem = store s.mem s.dest.p str;
          cur = record s.cur { p = s.cur.p + length str };
          dest = record s.dest { p = s.dest.p + length str };
        },
      )
unfolding pull_text pull_data_into_cursor cursor_pull
pull_data str s room fits l =
    rw
      (
        le→ltb s.dest.end (s.dest.p + length str) fits,
        le→ltb s.cur.end (s.cur.p + length str) room,
        l,
      )
      refl

-- The terminator has room behind the text, or is left out.
terminated_fits :
    (str : List ℕ) (s : Copying)
    → s.dest.p + length str < s.dest.end
    → terminated (
      Pulled.data_at s.dest.p,
      record {
        mem = store s.mem s.dest.p str;
        cur = record s.cur { p = s.cur.p + length str };
        dest = record s.dest { p = s.dest.p + length str };
      },
    )
      ≡ Prefixed.string s.dest.p (pulled str (0 ∷ []) s)
terminated_fits str s fits =
    let d : Buffer = record { mem = s.mem; cur = s.dest } in
    let string : Buffer → Prefixed = λ (w : Buffer).
      Prefixed.string s.dest.p
        (record { mem = w.mem; cur = record s.cur { p = s.cur.p + length str }; dest = w.cur }) in
    rw ((cursor_push_byte-Pushes 0).fits (written d str) (omega arith))
      (ap string (written-append d str (0 ∷ [])))

terminated_full :
    (str : List ℕ) (s : Copying)
    → s.dest.p + length str ≡ s.dest.end
    → terminated (
      Pulled.data_at s.dest.p,
      record {
        mem = store s.mem s.dest.p str;
        cur = record s.cur { p = s.cur.p + length str };
        dest = record s.dest { p = s.dest.p + length str };
      },
    )
      ≡ Prefixed.string s.dest.p (pulled str [] s)
unfolding cursor_push_byte
terminated_full str s full =
    let e : str ++ [] ≡ str = append-nil str in
    rw (lt→ltb s.dest.end (s.dest.p + length str + 1) (omega arith), e) refl

pull_text_full :
    (str : List ℕ) (s : Copying)
    → s.dest.end < s.dest.p + length str
    → pull_text (length str) s ≡ Prefixed.refused s
unfolding pull_text
pull_text_full str s h = rw (lt→ltb s.dest.end (s.dest.p + length str) h) refl

-- Where a text stands at the cursor, what `pull_text` does with it.
pull_text-result :
    (str : List ℕ) (s : Copying)
    → s.cur.p + length str ≤ s.cur.end
    → load s.mem s.cur.p (length str) ≡ str
    → let got = pull_text (length str) s in
      ((s.dest.p + length str < s.dest.end)
        × (got ≡ Prefixed.string s.dest.p (pulled str (0 ∷ []) s)))
      ⊎ (((s.dest.p + length str ≡ s.dest.end) × (got ≡ Prefixed.string s.dest.p (pulled str [] s)))
          ⊎ ((s.dest.end < s.dest.p + length str) × (got ≡ Prefixed.refused s)))
pull_text-result str s room l = elim (dec_lt s.dest.end (s.dest.p + length str)) [
  | yes over ↦ inr (inr (over, pull_text_full str s over))
  | no within ↦
      let whole = pull_data str s room (omega arith) l in
      elim (dec_lt (s.dest.p + length str) s.dest.end) [
        | yes fits ↦ inl (fits, whole ∙ terminated_fits str s fits)
        | no exact ↦
            let full : s.dest.p + length str ≡ s.dest.end = omega arith in
            inr (inl (full, whole ∙ terminated_full str s full))
      ]
]

-- The state in which `pull_varint` leaves what `push_prefixed_str` wrote at `b`.
abbrev pub at_text : List ℕ → Buffer → Cursor → Copying
at_text str b d = record {
  mem = (push_prefixed_str str b).1.mem;
  cur = record b.cur { p = b.cur.p + length (varint_bytes (length str)) };
  dest = d;
}

-- What `push_prefixed_str` wrote with success, for a string of an `int` length, `pull_prefixed_str`
-- reads back from the same place: where the destination has room for the string and one byte more it
-- gives the string with its terminator there, where it has room for the string alone it answers 1 all
-- the same and leaves the terminator out, and where it has less it answers 0 and writes nothing; where
-- it answers 1, the cursor stands behind the string, as `push_prefixed_str` left it.
pub pull-push_prefixed_str :
    (str : List ℕ) (b : Buffer) (d : Cursor)
    → length str < 2 ^ 31
    → b.cur.p ≤ b.cur.end
    → (push_prefixed_str str b).0 ≡ true
    → let w = (push_prefixed_str str b).1 in
      let got = pull_prefixed_str (record { mem = w.mem; cur = b.cur; dest = d }) in
      let s = at_text str b d in
      (((d.p + length str < d.end) × (got ≡ Prefixed.string d.p (pulled str (0 ∷ []) s)))
        ⊎ (((d.p + length str ≡ d.end) × (got ≡ Prefixed.string d.p (pulled str [] s)))
            ⊎ ((d.end < d.p + length str) × (got ≡ Prefixed.refused s))))
      × ((pulled str [] s).cur ≡ w.cur)
pull-push_prefixed_str str b d small ok done =
    let n = length str in
    let (is, fits) = push_prefixed_str-written str b small ok done in
    let bs = varint_bytes n ++ str in
    let k : length bs ≡ length (varint_bytes n) + n = length-append (varint_bytes n) str in
    let l : load (written b bs).mem b.cur.p (length bs) ≡ bs = load-store b.mem b.cur.p bs in
    let l' : load (push_prefixed_str str b).1.mem b.cur.p (length bs) ≡ bs = rw is l in
    let start : Copying = record { mem = (push_prefixed_str str b).1.mem; cur = b.cur; dest = d } in
    let r = pull_varint_behind str start small (omega arith) l' in
    let (_, behind) = load_split (push_prefixed_str str b).1.mem b.cur.p (varint_bytes n) str l' in
    (
      rw r (pull_text-result str (at_text str b d) (omega arith) behind),
      (let e : b.cur.p + length (varint_bytes n) + n ≡ b.cur.p + length bs = omega (arith, k) in
          rw (is, e) refl),
    )
