-- ===== src/Kernel/Pipe/Session.antt =====
-- A `read` call and a `write` call on the two ends of a pipe, whose passes the scheduler interleaves
-- in any order: the loops of kernel/src/fs/pipe.rs with `suspend_current_and_run_next` between passes.
use lemon_core.Base.{
  arith, ℕ, ◌≡◌, refl, sym, ap, ◌∙◌, none, some, Option, List, [], ◌∷◌, ◌++◌, ◌>>=◌, Bool, true,
  append_assoc,
}
use lemon_core.Kernel.Pipe.{
  PipeRingBuffer, Pipe, Pass, returned, again, suspended, Reading, Writing, read_pass, write_pass,
  start_read, start_write, make,
}
use lemon_core.Kernel.Pipe.Ring.{set_write_end-contents, new-IsValid, IsValid, contents}
use lemon_core.Kernel.Pipe.Passes.{read_pass-Delivers, write_pass-Accepts}
use lemon_core.Kernel.Pipe.Rounds.{state, IsReading, IsWriting, Delivers, Accepts}

-- Both calls see one ring: `turn` keeps the two copies equal.
pub record Session : Type 0 where
  pub reader : Reading
  pub writer : Writing
  pub read_result : Option ℕ
  pub write_result : Option ℕ

abbrev result : {S : Type 0} → Pass S → Option ℕ
result (returned n s) = some n
result (again s) = none
result (suspended s) = none

abbrev after_read : Session → Pass Reading → Session
after_read s p = record s {
  reader = state p;
  writer = record (s.writer) { ring = (state p).ring };
  read_result = result p;
}

abbrev after_write : Session → Pass Writing → Session
after_write s p = record s {
  writer = state p;
  reader = record (s.reader) { ring = (state p).ring };
  write_result = result p;
}

-- Whose call runs its next pass.
pub data Turn : Type 0 where
  reads writes : Turn

module _ (alive : ℕ → Bool) (read_end write_end : Pipe) where
  -- A call that has returned makes no more passes.
  read_turn : Session → Option ℕ → Option Session
  read_turn s none = do p ← read_pass alive read_end s.reader; some (after_read s p)
  read_turn s (some n) = some s

  write_turn : Session → Option ℕ → Option Session
  write_turn s none = do p ← write_pass write_end s.writer; some (after_write s p)
  write_turn s (some n) = some s

  pub turn : Session → Turn → Option Session
  unfolding read_turn write_turn
  turn s reads = read_turn s s.read_result
  turn s writes = write_turn s s.write_result

  pub run : Session → List Turn → Option Session
  unfolding turn
  run s [] = some s
  run s (t ∷ ts) = do s' ← turn s t; run s' ts

-- The two calls at their start, on the ring of a new pipe.
pub start : PipeRingBuffer → ℕ → List ℕ → Session
unfolding start_read start_write
start r n src = record {
  reader = start_read r n;
  writer = start_write r src;
  read_result = none;
  write_result = none;
}

pub record IsSession (pipe : ℕ) (s : Session) : Type 0 where
  pub reading : IsReading s.reader
  pub writing : IsWriting s.writer
  pub shared : s.writer.ring ≡ s.reader.ring
  pub has_end : s.reader.ring.write_end ≡ some pipe

-- The bytes read, then those in the ring, then those still to write.
abbrev pub in_flight : Session → List ℕ
in_flight s = s.reader.stored ++ (contents s.reader.ring ++ s.writer.source)

-- What a sequence of turns keeps.
pub record Continues (pipe : ℕ) (s s' : Session) : Type 0 where
  pub session : IsSession pipe s'
  pub bytes : in_flight s' ≡ in_flight s
  pub wants_read : s'.reader.want_to_read ≡ s.reader.want_to_read
  pub wants_write : s'.writer.want_to_write ≡ s.writer.want_to_write

Continues-refl : {pipe : ℕ} {s : Session} → IsSession pipe s → Continues pipe s s
Continues-refl v = record { session = v; bytes = refl; wants_read = refl; wants_write = refl }

Continues-trans :
    {pipe : ℕ} {s t u : Session} → Continues pipe s t → Continues pipe t u → Continues pipe s u
Continues-trans a b = record {
  session = b.session;
  bytes = b.bytes ∙ a.bytes;
  wants_read = b.wants_read ∙ a.wants_read;
  wants_write = b.wants_write ∙ a.wants_write;
}

read-Continues :
    {pipe : ℕ} (s : Session) (p : Pass Reading)
    → IsSession pipe s
    → Delivers s.reader p
    → Continues pipe s (after_read s p)
read-Continues s p v d = record {
  session = record {
    reading = d.keeps;
    writing = (d.keeps.0, v.writing.1);
    shared = refl;
    has_end = d.write_end ∙ v.has_end;
  };
  bytes =
      sym (append_assoc (state p).stored (contents (state p).ring) s.writer.source)
      ∙ ap (λ xs. xs ++ s.writer.source) d.order
      ∙ append_assoc s.reader.stored (contents s.reader.ring) s.writer.source;
  wants_read = d.wants;
  wants_write = refl;
}

write-Continues :
    {pipe : ℕ} (s : Session) (p : Pass Writing)
    → IsSession pipe s
    → Accepts s.writer p
    → Continues pipe s (after_write s p)
write-Continues s p v d = record {
  session = record {
    reading = (d.keeps.0, v.reading.1);
    writing = d.keeps;
    shared = refl;
    has_end = d.write_end ∙ ap (λ r. r.write_end) v.shared ∙ v.has_end;
  };
  bytes =
      ap (λ xs. s.reader.stored ++ xs) (d.order ∙ ap (λ r. contents r ++ s.writer.source) v.shared);
  wants_read = refl;
  wants_write = d.wants;
}

module _ (alive : ℕ → Bool) (read_end write_end : Pipe) (pipe : ℕ)
    (readable : read_end.readable ≡ true) (writable : write_end.writable ≡ true) where
  turn-Continues :
      (s : Session) (t : Turn)
      → IsSession pipe s
      → (s' : Session) × (turn alive read_end write_end s t ≡ some s') × Continues pipe s s'
  unfolding turn
  turn-Continues s reads v = go s.read_result
    where
      go :
          (o : Option ℕ)
          → (s' : Session) × (read_turn alive read_end write_end s o ≡ some s')
            × Continues pipe s s'
      go (some n) = (s, refl, Continues-refl v)
      go none =
          let (p, e, d, _) =
            read_pass-Delivers alive read_end s.reader pipe readable v.has_end v.reading in
          (after_read s p, rw e, read-Continues s p v d)
  turn-Continues s writes v = go s.write_result
    where
      go :
          (o : Option ℕ)
          → (s' : Session) × (write_turn alive read_end write_end s o ≡ some s')
            × Continues pipe s s'
      go (some n) = (s, refl, Continues-refl v)
      go none =
          let (p, e, d, _) = write_pass-Accepts write_end s.writer writable v.writing in
          (after_write s p, rw e, write-Continues s p v d)

  -- Any schedule of the passes of a read call and a write call runs without a panic, and at its
  -- end the bytes read, then those in the ring, then those still to write, are those of its start.
  pub run-Continues :
      (ts : List Turn) (s : Session)
      → IsSession pipe s
      → (s' : Session) × (run alive read_end write_end s ts ≡ some s') × Continues pipe s s'
  unfolding run
  run-Continues [] s v = (s, refl, Continues-refl v)
  run-Continues (t ∷ ts) s v =
      let (s', e, c) = turn-Continues s t v in
      let (s'', e', c') = run-Continues ts s' c.session in (s'', rw e e', Continues-trans c c')

start-IsSession :
    (pipe n : ℕ) (src : List ℕ) {r : PipeRingBuffer}
    → IsValid r
    → r.write_end ≡ some pipe
    → IsSession pipe (start r n src)
unfolding start start_read start_write
start-IsSession pipe n src v e = record {
  reading = (v, omega arith);
  writing = (v, omega arith);
  shared = refl;
  has_end = e;
}

-- Whatever the schedule, a read of `n` bytes and a write of `src` on the ends of a new pipe run
-- without a panic, and the bytes read so far, then those in the ring, then those still to write,
-- are `src`: none is lost, doubled or out of order.
pub run-make :
    (alive : ℕ → Bool) (buffer pipe n : ℕ) (src : List ℕ) (ts : List Turn)
    → let (read_end, write_end, r) = make buffer pipe in
      (s : Session) × (run alive read_end write_end (start r n src) ts ≡ some s)
      × (s.reader.stored ++ (contents s.reader.ring ++ s.writer.source) ≡ src)
unfolding make start start_read start_write
run-make alive buffer pipe n src ts =
    let (read_end, write_end, r) = make buffer pipe in
    let v = set_write_end-contents pipe new-IsValid.0 in
    let (s, e, c) =
      run-Continues alive read_end write_end pipe refl refl ts (start r n src)
        (start-IsSession pipe n src v.0 refl) in
    (s, e, c.bytes ∙ ap (λ xs. xs ++ src) (v.1 ∙ new-IsValid.1))
