-- ===== src/Kernel/Pipe/Tests.antt =====
-- Runs of the pipe on concrete inputs.
use lemon_core.Base.{ℕ, ◌≡◌, refl, true, some, [], ◌∷◌, ◌++◌, arith, replicate}
use lemon_core.Kernel.Pipe.{
  PipeRingBuffer, normal, make, Pass, Reading, Writing, read_pass, write_pass, read_end_with_buffer,
  write_end_with_buffer,
}
use lemon_core.Kernel.Pipe.Ring.{IsValid, contents}
use lemon_core.Kernel.Pipe.Passes.{
  ReadOutcome, WriteOutcome, read_pass-Delivers, write_pass-Accepts,
}
use lemon_core.Kernel.Pipe.Rounds.{Delivers, Accepts}
use lemon_core.Kernel.Pipe.Session.{Session, reads, writes, start, run, run-make}

-- 8 and 9, round the end of the storage.
abbrev wrapped : PipeRingBuffer
wrapped = record {
  arr = 9 ∷ replicate 30 0 ++ (8 ∷ []);
  head = 31;
  tail = 1;
  status = normal;
  write_end = some 7;
}

wrapped-IsValid : IsValid wrapped
wrapped-IsValid = record {
  storage = refl;
  head_in = omega arith;
  tail_in = omega arith;
  agrees = λ (e : ◌≡◌ {A = ℕ} 31 1). absurd (omega (arith, e));
}

abbrev reading : Reading
reading = record { ring = wrapped; stored = []; already_read = 0; slots = 3; want_to_read = 3 }

abbrev writing : Writing
writing = record { ring = wrapped; source = 4 ∷ 5 ∷ []; already_write = 0; want_to_write = 2 }

read_pass-Delivers_example :
    (p : Pass Reading) × (read_pass (λ j. true) (read_end_with_buffer 0) reading ≡ some p)
    × Delivers reading p
    × ReadOutcome (λ j. true) 7 reading p
unfolding read_end_with_buffer
read_pass-Delivers_example =
    read_pass-Delivers (λ j. true) (read_end_with_buffer 0) reading 7 refl refl
      (wrapped-IsValid, refl)

write_pass-Accepts_example :
    (p : Pass Writing) × (write_pass (write_end_with_buffer 0) writing ≡ some p)
    × Accepts writing p
    × WriteOutcome writing p
unfolding write_end_with_buffer
write_pass-Accepts_example =
    write_pass-Accepts (write_end_with_buffer 0) writing refl (wrapped-IsValid, refl)

run-make_example :
    let (read_end, write_end, r) = make 0 1 in
    (s : Session) × (run
        (λ j. true)
        read_end
        write_end
        (start r 2 (4 ∷ 5 ∷ 6 ∷ []))
        (reads ∷ writes ∷ reads ∷ [])
      ≡ some s)
    × (s.reader.stored ++ (contents s.reader.ring ++ s.writer.source) ≡ 4 ∷ 5 ∷ 6 ∷ [])
run-make_example = run-make (λ j. true) 0 1 2 (4 ∷ 5 ∷ 6 ∷ []) (reads ∷ writes ∷ reads ∷ [])
