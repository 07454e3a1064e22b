-- ===== src/Kernel/PageTable/Samples.antt =====
-- A machine of zeros with one page table in frame 4, and frames up to 40, for the tests.
use lemon_core.Base.{
  ℕ, ◌/◌, ◌%◌, ◌^◌, ◌≡◌, refl, subst, ◌∙◌, inl, inr, true, none, some, [], ◌∷◌, arith, ◌==◌,
  if◌then◌else◌, ==_iff, Bool-cases,
}
use lemon_core.Kernel.Frames.{StackFrameAllocator, Memory}
use lemon_core.Kernel.Frames.Ownership.{IsValid, in_use}
use lemon_core.Kernel.PageEntry.{empty}
use lemon_core.Kernel.PageTable.{Space, load}
use lemon_core.Kernel.PageTable.Words.{load-zero, empty-invalid}
use lemon_core.Kernel.PageTable.Tree.{Owner, IsTree}
use lemon_core.Kernel.PageTable.Changes.{page_map, page_map-look}

abbrev pub zeros : Memory
zeros f j = 0

abbrev pub one_out : StackFrameAllocator
one_out = record { current = 5; end = 40; recycled = [] }

abbrev pub blank : Space
blank = record {
  table = record { root_ppn = 4; data_frames = []; metadata_frames = 4 ∷ [] };
  memory = zeros;
  frames = one_out;
}

abbrev pub root_only : Owner
root_only f = if 4 == f then some [] else none

pub one_out-IsValid : IsValid 4 one_out
one_out-IsValid = record {
  from_start = omega arith;
  within = omega arith;
  physical = omega arith;
  below = tt;
  distinct = tt;
}

all_empty : (f i : ℕ) → load zeros f i ≡ empty
all_empty f i = load-zero zeros f i (λ j. refl)

pub blank-IsTree : IsTree 4 blank root_only
unfolding in_use
blank-IsTree = record {
  frames = one_out-IsValid;
  top = refl;
  below = λ f i path o l h v. absurd (ground (arith, all_empty f i, empty-invalid, v));
  used = λ f path o. elim (Bool-cases (4 == f)) [
    | inl e ↦ subst (λ x. in_use 4 one_out x ≡ true) ((==_iff 4 f).0 e) refl
    | inr n ↦ absurd (ground (arith, (rw n at o)))
  ];
}

pub blank-page_map : (v : ℕ) → page_map blank v ≡ none
blank-page_map v =
    page_map-look blank v
    ∙ rw (all_empty 4 (v / 2 ^ 18 % 2 ^ 9), empty-invalid) (rw empty-invalid refl)
