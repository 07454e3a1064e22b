-- ===== src/Kernel/Pipe/Passes.antt =====
-- What one pass of the read loop and one of the write loop do to the bytes in flight.
use lemon_core.Base.{
  ◌⊎◌, ◌≢◌, false, true, Bool, ℕ, ◌≡◌, refl, ap, ◌∙◌, some, [], arith, length, ◌==◌, Bool-cases,
  inl, inr, ==_iff,
}
use lemon_core.Kernel.Pipe.{
  write_pass, read_pass, Pipe, PipeRingBuffer, Pass, returned, again, suspended, Reading, Writing,
  available_to_read, available_to_write,
}
use lemon_core.Kernel.Pipe.Ring.{contents, length-contents}
use lemon_core.Kernel.Pipe.Rounds.{
  IsReading, IsWriting, ReadEnd, Delivers, contents-nil, read_rounds-Delivers, WriteEnd, Accepts,
  write_rounds-Accepts,
}

contents-ne_nil : (r : PipeRingBuffer) → available_to_read r ≢ 0 → contents r ≢ []
contents-ne_nil r h e = h (omega (arith, ap length e, length-contents r))

-- Why a read pass ends as it does: a short count only when the ring holds nothing and no write end
-- is open; a suspension only when the ring holds nothing and one is open.
abbrev pub ReadOutcome : (ℕ → Bool) → ℕ → Reading → Pass Reading → Type 0
ReadOutcome alive pipe s (returned n s') =
    (n ≡ s'.already_read) × ((n ≡ s.want_to_read) ⊎ ((contents s.ring ≡ []) × (alive pipe ≡ false)))
ReadOutcome alive pipe s (again s') = (contents s.ring ≢ []) × (contents s'.ring ≡ [])
ReadOutcome alive pipe s (suspended s') = (s' ≡ s) × (contents s.ring ≡ []) × (alive pipe ≡ true)

read_outcome :
    (alive : ℕ → Bool) (pipe : ℕ) (s : Reading) (p : Pass Reading)
    → available_to_read s.ring ≢ 0
    → Delivers s p
    → ReadEnd p
    → ReadOutcome alive pipe s p
read_outcome alive pipe s (returned n s') h d e = (e.0, inl (e.1 ∙ d.wants))
read_outcome alive pipe s (again s') h d e = (contents-ne_nil s.ring h, e)
read_outcome alive pipe s (suspended s') h d e = absurd e

-- A pass of the read loop, on a valid ring with its write end set, never panics. What it stored
-- before, what it stores now and what it leaves in the ring are the bytes of before, in order.
-- It returns only with the count asked for, or with the ring empty and every write end closed; it
-- suspends the task only with the ring empty and a write end open; else it drains the ring.
pub read_pass-Delivers :
    (alive : ℕ → Bool) (end : Pipe) (s : Reading) (pipe : ℕ)
    → end.readable ≡ true
    → s.ring.write_end ≡ some pipe
    → IsReading s
    → (p : Pass Reading) × (read_pass alive end s ≡ some p)
      × Delivers s p
      × ReadOutcome alive pipe s p
unfolding read_pass
read_pass-Delivers alive end s pipe rd we v = elim (Bool-cases (available_to_read s.ring == 0)) [
  | inl none_left ↦
      let nil : contents s.ring ≡ [] = contents-nil s.ring ((==_iff _ _).0 none_left) in
      let same : Delivers s (suspended s) = record {
        keeps = v;
        wants = refl;
        write_end = refl;
        order = refl;
      } in
      elim (Bool-cases (alive pipe)) [
        | inl open_end ↦
            (suspended s, rw (rd, none_left, we, open_end), same, (refl, nil, open_end))
        | inr closed ↦ (
          returned s.already_read s,
          rw (rd, none_left, we, closed),
          record { keeps = v; wants = refl; write_end = refl; order = refl },
          (refl, inr (nil, closed)),
        )
      ]
  | inr more ↦
      let left : available_to_read s.ring ≢ 0 = λ e. cc ((==_iff _ 0).1 e) in
      let (p, run, d, ends) =
        read_rounds-Delivers (available_to_read s.ring) s.slots s v.0 v.1 refl refl in
      (p, rw (rd, more) run, d, read_outcome alive pipe s p left d ends)
]

abbrev pub WriteOutcome : Writing → Pass Writing → Type 0
WriteOutcome s (returned n s') = (n ≡ s'.already_write) × (n ≡ s.want_to_write)
WriteOutcome s (again s') = (available_to_write s.ring ≢ 0) × (available_to_write s'.ring ≡ 0)
WriteOutcome s (suspended s') = (s' ≡ s) × (available_to_write s.ring ≡ 0)

write_outcome :
    (s : Writing) (p : Pass Writing)
    → available_to_write s.ring ≢ 0
    → Accepts s p
    → WriteEnd p
    → WriteOutcome s p
write_outcome s (returned n s') h d e = (e.0, e.1 ∙ d.wants)
write_outcome s (again s') h d e = (h, e)
write_outcome s (suspended s') h d e = absurd e

-- A pass of the write loop on a valid ring never panics: what the ring holds followed by what is
-- left to write stays the same. It returns only with the count asked for, suspends the task only
-- with the ring full, and else fills the ring.
pub write_pass-Accepts :
    (end : Pipe) (s : Writing)
    → end.writable ≡ true
    → IsWriting s
    → (p : Pass Writing) × (write_pass end s ≡ some p) × Accepts s p × WriteOutcome s p
unfolding write_pass
write_pass-Accepts end s wr v = elim (Bool-cases (available_to_write s.ring == 0)) [
  | inl full_up ↦ (
    suspended s,
    rw (wr, full_up),
    record { keeps = v; wants = refl; write_end = refl; order = refl },
    (refl, (==_iff _ _).0 full_up),
  )
  | inr room ↦
      let some_room : available_to_write s.ring ≢ 0 = λ e. cc ((==_iff _ 0).1 e) in
      let (p, run, d, ends) =
        write_rounds-Accepts (available_to_write s.ring) s.source s v refl refl in
      (p, rw (wr, room) run, d, write_outcome s p some_room d ends)
]
