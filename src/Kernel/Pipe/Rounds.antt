-- ===== src/Kernel/Pipe/Rounds.antt =====
-- What the rounds of the read loop and of the write loop do to the bytes in flight.
use lemon_core.Base.{
  ℕ, zero, suc, ◌+◌, ◌≡◌, refl, ap, sym, ◌∙◌, some, List, [], ◌∷◌, ◌++◌, arith, length, ◌==◌,
  Bool-cases, inl, inr, append_assoc, ==_iff, length-append,
}
use lemon_core.Kernel.Pipe.{
  PipeRingBuffer, Pass, returned, again, suspended, Reading, Writing, available_to_read,
  available_to_write, read_rounds, write_rounds, store_byte, taken,
}
use lemon_core.Kernel.Pipe.Ring.{
  IsValid, contents, length-contents, available_sum, read_byte-contents, write_byte-contents,
}

abbrev pub state : {S : Type 0} → Pass S → S
state (returned n s) = s
state (again s) = s
state (suspended s) = s

-- The iterator and the counter of a read call agree.
abbrev pub IsReading : Reading → Type 0
IsReading s = IsValid s.ring × (s.already_read + s.slots ≡ s.want_to_read)

abbrev pub IsWriting : Writing → Type 0
IsWriting s = IsValid s.ring × (s.already_write + length s.source ≡ s.want_to_write)

-- How a read pass may end: it returns the full count, or goes on with the ring drained.
abbrev pub ReadEnd : Pass Reading → Type 0
ReadEnd (returned n s) = (n ≡ s.already_read) × (n ≡ s.want_to_read)
ReadEnd (again s) = contents s.ring ≡ []
ReadEnd (suspended s) = ⊥

pub record Delivers (s : Reading) (p : Pass Reading) : Type 0 where
  pub keeps : IsReading (state p)
  pub wants : (state p).want_to_read ≡ s.want_to_read
  pub write_end : (state p).ring.write_end ≡ s.ring.write_end
  pub order : (state p).stored ++ contents (state p).ring ≡ s.stored ++ contents s.ring

pub contents-nil : (r : PipeRingBuffer) → available_to_read r ≡ 0 → contents r ≡ []
contents-nil r e = nil (contents r) (length-contents r ∙ e)
  where
    nil : (xs : List ℕ) → length xs ≡ 0 → xs ≡ []
    nil [] h = refl
    nil (x ∷ xs) h = absurd (omega arith)

pub read_rounds-Delivers :
    (k left : ℕ) (s : Reading)
    → IsValid s.ring
    → s.already_read + left ≡ s.want_to_read
    → s.slots ≡ left
    → k ≡ available_to_read s.ring
    → (p : Pass Reading) × (read_rounds k left s ≡ some p) × Delivers s p × ReadEnd p
unfolding read_rounds
read_rounds-Delivers zero left s v c l e = (
  again s,
  refl,
  record { keeps = (v, ground arith); wants = refl; write_end = refl; order = refl },
  contents-nil s.ring (sym e),
)
read_rounds-Delivers (suc k) zero s v c l e = (
  returned s.already_read s,
  refl,
  record { keeps = (v, ground arith); wants = refl; write_end = refl; order = refl },
  (refl, omega arith),
)
read_rounds-Delivers (suc k) (suc left) s v c l e =
    let (b, r, eq, v', front, we) = read_byte-contents v (omega arith) in
    let s' : Reading = store_byte s b r left in
    let fewer : k ≡ available_to_read r =
      omega (arith, ap length front, length-contents s.ring, length-contents r) in
    let moved : (s.stored ++ (b ∷ [])) ++ contents r ≡ s.stored ++ contents s.ring =
      append_assoc s.stored (b ∷ []) (contents r) ∙ ap (λ xs. s.stored ++ xs) (sym front) in
    elim (Bool-cases (s.already_read + 1 == s.want_to_read)) [
      | inl done ↦ (
        returned (s.already_read + 1) s',
        rw (eq, done),
        record { keeps = (v', omega arith); wants = refl; write_end = we; order = moved },
        (refl, (==_iff _ _).0 done),
      )
      | inr more ↦
          let (p, run, d, ends) = read_rounds-Delivers k left s' v' (omega arith) refl fewer in
          (
            p,
            rw (eq, more) run,
            record {
              keeps = d.keeps;
              wants = d.wants;
              write_end = d.write_end ∙ we;
              order = d.order ∙ moved;
            },
            ends,
          )
    ]

-- How a write pass may end: it returns the full count with nothing left to write, or goes on with
-- the ring filled up.
abbrev pub WriteEnd : Pass Writing → Type 0
WriteEnd (returned n s) = (n ≡ s.already_write) × (n ≡ s.want_to_write)
WriteEnd (again s) = available_to_write s.ring ≡ 0
WriteEnd (suspended s) = ⊥

pub record Accepts (s : Writing) (p : Pass Writing) : Type 0 where
  pub keeps : IsWriting (state p)
  pub wants : (state p).want_to_write ≡ s.want_to_write
  pub write_end : (state p).ring.write_end ≡ s.ring.write_end
  pub order : contents (state p).ring ++ (state p).source ≡ contents s.ring ++ s.source

pub write_rounds-Accepts :
    (k : ℕ) (src : List ℕ) (s : Writing)
    → IsWriting s
    → s.source ≡ src
    → k ≡ available_to_write s.ring
    → (p : Pass Writing) × (write_rounds k src s ≡ some p) × Accepts s p × WriteEnd p
unfolding write_rounds
write_rounds-Accepts zero src s v l e =
    (again s, refl, record { keeps = v; wants = refl; write_end = refl; order = refl }, sym e)
write_rounds-Accepts (suc k) [] s v l e = (
  returned s.already_write s,
  refl,
  record { keeps = v; wants = refl; write_end = refl; order = refl },
  (refl, omega (arith, v.1, ap length l)),
)
write_rounds-Accepts (suc k) (b ∷ src) s v l e =
    let (r, eq, v', back, we) = write_byte-contents b v.0 (omega arith) in
    let s' : Writing = taken s r src in
    let fewer : k ≡ available_to_write r = omega (
      arith,
      ap length back,
      length-append (contents s.ring) (b ∷ []),
      length-contents s.ring,
      length-contents r,
      available_sum v.0,
      available_sum v',
    ) in
    let moved : contents r ++ src ≡ contents s.ring ++ s.source =
      ap (λ xs. xs ++ src) back
      ∙ append_assoc (contents s.ring) (b ∷ []) src
      ∙ ap (λ xs. contents s.ring ++ xs) (sym l) in
    elim (Bool-cases (s.already_write + 1 == s.want_to_write)) [
      | inl done ↦ (
        returned (s.already_write + 1) s',
        rw (eq, done),
        record {
          keeps = (v', omega (arith, v.1, ap length l));
          wants = refl;
          write_end = we;
          order = moved;
        },
        (refl, (==_iff _ _).0 done),
      )
      | inr more ↦
          let (p, run, d, ends) =
            write_rounds-Accepts k src s' (v', omega (arith, v.1, ap length l)) refl fewer in
          (
            p,
            rw (eq, more) run,
            record {
              keeps = d.keeps;
              wants = d.wants;
              write_end = d.write_end ∙ we;
              order = d.order ∙ moved;
            },
            ends,
          )
    ]
