-- ===== src/Kernel/MapArea/Backing.antt =====
-- The frames behind the pages of an address space.
use lemon_core.Base.{
  ℕ, ◌+◌, ◌^◌, ◌≤◌, ◌<◌, bit_or, ◌≡◌, refl, sym, ap, subst, ◌∙◌, ◌≢◌, ◌⊎◌, inl, inr, true, false,
  none, some, List, ◌∷◌, arith, ◌==◌, if◌then◌else◌, ==_iff, Bool-cases, Option-cases,
}
use mathlib.Core.Option.{some-injective}
use lemon_core.Kernel.Frames.{Memory, StackFrameAllocator, alloc_tracked}
use lemon_core.Kernel.Frames.Ownership.{in_use}
use lemon_core.Kernel.Frames.Room.{available, alloc_tracked-Allocated}
use lemon_core.Kernel.PageEntry.{new as entry}
use lemon_core.Kernel.PageTable.{Space, v_flag, map as map_page}
use lemon_core.Kernel.PageTable.Tree.{Owner, IsTree}
use lemon_core.Kernel.PageTable.Changes.{page_map}
use lemon_core.Kernel.PageTable.Quiet.{IsQuiet, quiet-IsTree, quiet-page_map}
use lemon_core.Kernel.PageTable.Mapping.{map-Changes}
use lemon_core.Kernel.MapArea.{
  MapArea, framed, frame_of, without, map_one, page_for, add_frame, insert, drop_frame,
}
use lemon_core.Kernel.MapArea.Keys.{frame_of-without}

-- Each tracked frame is in use, is no part of the page table, is the frame of one page alone, and
-- that page is mapped to it.
pub record IsBacked (start : ℕ) (s : Space) (owner : Owner) : Type 0 where
  pub tree : IsTree start s owner
  pub backed :
      (vpn frame : ℕ)
      → frame_of vpn s.table.data_frames ≡ some frame
      → (owner frame ≡ none) × (in_use start s.frames frame ≡ true)
  pub apart :
      (v w frame : ℕ)
      → frame_of v s.table.data_frames ≡ some frame
      → frame_of w s.table.data_frames ≡ some frame
      → v ≡ w
  pub mapped :
      (vpn frame : ℕ)
      → frame_of vpn s.table.data_frames ≡ some frame
      → (vpn < 2 ^ 27) × (flags : ℕ) × (page_map s vpn ≡ some (entry frame flags))

-- What is left of the other frames in use: they are as they were, and no part of the page table if
-- they were none.
pub record IsKept (start : ℕ) (s : Space) (owner : Owner) (s' : Space) (owner' : Owner)
    : Type 0 where
  pub still_used : (f : ℕ) → in_use start s.frames f ≡ true → in_use start s'.frames f ≡ true
  pub outside :
      (f j : ℕ)
      → in_use start s.frames f ≡ true
      → owner f ≡ none
      → (owner' f ≡ none) × (s'.memory f j ≡ s.memory f j)

-- A space with one more page, behind which stands a new frame of zeros.
pub record HasPage (start : ℕ) (s : Space) (owner : Owner) (vpn frame flags : ℕ) (s' : Space)
    (owner' : Owner) : Type 0 where
  pub backing : IsBacked start s' owner'
  pub entries :
      (v : ℕ)
      → v < 2 ^ 27
      → page_map s' v
        ≡ (if vpn == v then some (entry frame (bit_or flags v_flag)) else page_map s v)
  pub frames :
      (v : ℕ)
      → frame_of v s'.table.data_frames
        ≡ (if vpn == v then some frame else frame_of v s.table.data_frames)
  pub fresh : in_use start s.frames frame ≡ false
  pub zeros : (j : ℕ) → s'.memory frame j ≡ 0
  pub kept : IsKept start s owner s' owner'
  pub room : available s.frames ≤ available s'.frames + 3

-- A page without an entry has no tracker.
pub untracked :
    (start : ℕ) (s : Space) (owner : Owner) (vpn : ℕ)
    → IsBacked start s owner
    → page_map s vpn ≡ none
    → frame_of vpn s.table.data_frames ≡ none
untracked start s owner vpn b free = elim (Option-cases (frame_of vpn s.table.data_frames)) [
  | inl none' ↦ none'
  | inr (frame, found) ↦
      let (small, flags, entry) = b.mapped vpn frame found in absurd (ground (arith, free, entry))
]

keys_added :
    (v vpn frame : ℕ) (xs : List (ℕ × ℕ))
    → frame_of v ((vpn, frame) ∷ without vpn xs) ≡ (if vpn == v then some frame else frame_of v xs)
keys_added v vpn frame xs = elim (Bool-cases (vpn == v)) [
  | inl e ↦ rw e refl
  | inr n ↦ rw (n, frame_of-without v vpn xs, n) refl
]

-- The trackers after one more, on a new frame.
module _ (start : ℕ) (s : Space) (owner : Owner) (s' : Space) (owner' : Owner) (vpn frame flags : ℕ)
    (b : IsBacked start s owner) (fresh : in_use start s.frames frame ≡ false)
    (keys : (v : ℕ)
      → frame_of v s'.table.data_frames
        ≡ (if vpn == v then some frame else frame_of v s.table.data_frames)) where
  -- Where a frame of the new trackers comes from.
  from_old :
      (v f : ℕ)
      → frame_of v s'.table.data_frames ≡ some f
      → ((vpn ≡ v) × (frame ≡ f))
        ⊎ ((vpn == v ≡ false) × (frame_of v s.table.data_frames ≡ some f) × (frame ≢ f))
  from_old v f k = elim (Bool-cases (vpn == v)) [
    | inl e ↦ inl ((==_iff vpn v).0 e, some-injective _ _ (sym (keys v ∙ rw e refl) ∙ k))
    | inr n ↦
        let old : frame_of v s.table.data_frames ≡ some f = sym (keys v ∙ rw n refl) ∙ k in
        inr (n, old, λ q. ground (arith, fresh, (b.backed v f old).1, ap (in_use start s.frames) q))
  ]

  pub added-IsBacked :
      IsTree start s' owner'
      → vpn < 2 ^ 27
      → (owner' frame ≡ none) × (in_use start s'.frames frame ≡ true)
      → ((f : ℕ)
          → in_use start s.frames f ≡ true
          → owner f ≡ none
          → (owner' f ≡ none) × (in_use start s'.frames f ≡ true))
      → ((v : ℕ)
          → v < 2 ^ 27
          → page_map s' v ≡ (if vpn == v then some (entry frame flags) else page_map s v))
      → IsBacked start s' owner'
  added-IsBacked tree small own others entries = record {
    tree = tree;
    backed = λ v f k. elim (from_old v f k) [
      | inl (e, q) ↦ subst (λ x. (owner' x ≡ none) × (in_use start s'.frames x ≡ true)) q own
      | inr (n, old, ne) ↦ others f (b.backed v f old).1 (b.backed v f old).0
    ];
    apart = λ v w f k l. elim (from_old v f k) [
      | inl (e, q) ↦ elim (from_old w f l) [
        | inl (e', q') ↦ sym e ∙ e'
        | inr (n, old, ne) ↦ absurd (ne q)
      ]
      | inr (n, old, ne) ↦ elim (from_old w f l) [
        | inl (e', q') ↦ absurd (ne q')
        | inr (n', old', ne') ↦ b.apart v w f old old'
      ]
    ];
    mapped = λ v f k. elim (from_old v f k) [
      | inl (e, q) ↦
          let low : v < 2 ^ 27 = subst (λ x. x < 2 ^ 27) e small in
          (low, flags, entries v low ∙ rw ((==_iff vpn v).1 e) (ap (λ x. some (entry x flags)) q))
      | inr (n, old, ne) ↦
          let (low, flags', shown) = b.mapped v f old in (low, flags', entries v low ∙ rw n shown)
    ];
  }

-- The start of `map_one` on a framed area.
map_one-framed :
    (area : MapArea) (s : Space) (vpn frame : ℕ) (m : Memory) (a : StackFrameAllocator)
    → area.map_type ≡ framed
    → alloc_tracked s.memory s.frames ≡ (some frame, m, a)
    → frame_of vpn s.table.data_frames ≡ none
    → map_one area s vpn
      ≡ map_page
          (record {
            table = record s.table { data_frames = (vpn, frame) ∷ without vpn s.table.data_frames };
            memory = m;
            frames = a;
          })
          vpn
          frame
          area.map_perm
unfolding map_one page_for add_frame insert drop_frame
map_one-framed area s vpn frame m a type result free = rw (type, result, free) refl

-- A framed page mapped while three frames are left.
pub map_one-HasPage :
    (start : ℕ) (s : Space) (owner : Owner) (area : MapArea) (vpn : ℕ)
    → IsBacked start s owner
    → area.map_type ≡ framed
    → area.map_perm < 2 ^ 8
    → vpn < 2 ^ 27
    → page_map s vpn ≡ none
    → 3 ≤ available s.frames
    → (s' : Space) × (owner' : Owner) × (frame : ℕ) × (map_one area s vpn ≡ some s')
      × HasPage start s owner vpn frame area.map_perm s' owner'
map_one-HasPage start s owner area vpn b type perm h free room =
    let (frame, m, a, z) =
      alloc_tracked-Allocated start s.memory s.frames b.tree.frames (omega (arith, room)) in
    let s1 : Space = record {
      table = record s.table { data_frames = (vpn, frame) ∷ without vpn s.table.data_frames };
      memory = m;
      frames = a;
    } in
    let apart : (f : ℕ) → in_use start s.frames f ≡ true → frame == f ≡ false = λ f u.
      elim (Bool-cases (frame == f)) [
        | inl e ↦ absurd (ground (arith, u, z.fresh, (==_iff frame f).0 e))
        | inr n ↦ n
      ] in
    let quiet : IsQuiet start s owner s1 = record {
      frames = z.valid;
      root = refl;
      used = λ f path o. let u = b.tree.used f path o in z.marked f ∙ rw (apart f u) u;
      same = λ f j path o. z.cleared f j ∙ rw (apart f (b.tree.used f path o)) refl;
    } in
    let tree = quiet-IsTree start s owner s1 b.tree quiet in
    let same = quiet-page_map start s owner s1 b.tree quiet in
    let (s2, owner2, done, c, left) =
      map-Changes start s1 owner vpn frame area.map_perm tree h z.physical perm (same vpn ∙ free)
        (omega (arith, z.left, room)) in
    let outer : owner frame ≡ none = elim (Option-cases (owner frame)) [
      | inl none' ↦ none'
      | inr (path, found) ↦ absurd (ground (arith, z.fresh, b.tree.used frame path found))
    ] in
    let itself : in_use start a frame ≡ true =
      z.marked frame ∙ rw ((==_iff frame frame).1 refl) refl in
    let keys : (v : ℕ)
        → frame_of v s2.table.data_frames
          ≡ (if vpn == v then some frame else frame_of v s.table.data_frames) =
      λ v. ap (frame_of v) c.data_frames ∙ keys_added v vpn frame s.table.data_frames in
    (
      s2,
      owner2,
      frame,
      map_one-framed area s vpn frame m a type z.result (untracked start s owner vpn b free) ∙ done,
      record {
        backing =
            added-IsBacked start s owner s2 owner2 vpn frame (bit_or area.map_perm v_flag) b z.fresh
              keys c.tree h ((c.outside frame 0 itself outer).0, c.still_used frame itself)
              (λ f u o.
                let u' = z.marked f ∙ rw (apart f u) u in
                ((c.outside f 0 u' o).0, c.still_used f u'))
              (λ v l. c.entries v l ∙ rw (same v) refl);
        entries = λ v l. c.entries v l ∙ rw (same v) refl;
        frames = keys;
        fresh = z.fresh;
        zeros = λ j.
            (c.outside frame j itself outer).1
            ∙ z.cleared frame j
            ∙ rw ((==_iff frame frame).1 refl) refl;
        kept = record {
          still_used = λ f u. c.still_used f (z.marked f ∙ rw (apart f u) u);
          outside = λ f j u o.
              let (o', e) = c.outside f j (z.marked f ∙ rw (apart f u) u) o in
              (o', e ∙ z.cleared f j ∙ rw (apart f u) refl);
        };
        room = omega (arith, left, z.left);
      },
    )
