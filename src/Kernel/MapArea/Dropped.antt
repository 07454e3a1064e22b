-- ===== src/Kernel/MapArea/Dropped.antt =====
-- The pages of a framed area, all unmapped.
use lemon_core.Base.{
  ℕ, ◌^◌, ◌<◌, ◌≡◌, refl, sym, ap, ◌∙◌, inl, inr, true, false, none, some, List, [], ◌∷◌, arith,
  ◌==◌, if◌then◌else◌, ==_iff, Bool-cases, ◌>>=◌, contains, Distinct,
}
use mathlib.Core.Option.{some-injective}
use lemon_core.Kernel.Frames.{StackFrameAllocator, dealloc}
use lemon_core.Kernel.Frames.Ownership.{in_use, dealloc-in_use}
use lemon_core.Kernel.PageEntry.{new as entry}
use lemon_core.Kernel.PageTable.{Space, unmap as unmap_page}
use lemon_core.Kernel.PageTable.Tree.{Owner}
use lemon_core.Kernel.PageTable.Changes.{page_map}
use lemon_core.Kernel.PageTable.Quiet.{IsQuiet, quiet-IsTree, quiet-page_map}
use lemon_core.Kernel.PageTable.Mapping.{unmap-Changes}
use lemon_core.Kernel.MapArea.{
  MapArea, framed, frame_of, without, unmap_one, for_each, remove, drop_frame,
}
use lemon_core.Kernel.MapArea.Backing.{IsBacked}
use lemon_core.Kernel.MapArea.Keys.{frame_of-without}

-- A space with one page less, and its frame given back.
pub record LacksPage (start : ℕ) (s : Space) (owner : Owner) (vpn frame : ℕ) (s' : Space)
    : Type 0 where
  pub backing : IsBacked start s' owner
  pub entries : (v : ℕ) → v < 2 ^ 27 → page_map s' v ≡ (if vpn == v then none else page_map s v)
  pub frames :
      (v : ℕ)
      → frame_of v s'.table.data_frames
        ≡ (if vpn == v then none else frame_of v s.table.data_frames)
  pub given_back :
      (f : ℕ) → in_use start s'.frames f ≡ (if frame == f then false else in_use start s.frames f)

unmap_one-framed :
    (area : MapArea) (s : Space) (vpn frame : ℕ) (a : StackFrameAllocator)
    → area.map_type ≡ framed
    → frame_of vpn s.table.data_frames ≡ some frame
    → dealloc s.frames frame ≡ some a
    → unmap_one area s vpn
      ≡ unmap_page
          (record {
            table = record s.table { data_frames = without vpn s.table.data_frames };
            memory = s.memory;
            frames = a;
          })
          vpn
unfolding unmap_one remove drop_frame
unmap_one-framed area s vpn frame a type key back = rw (type, key, back) refl

-- A tracked page unmapped.
pub unmap_one-LacksPage :
    (start : ℕ) (s : Space) (owner : Owner) (area : MapArea) (vpn frame : ℕ)
    → IsBacked start s owner
    → area.map_type ≡ framed
    → frame_of vpn s.table.data_frames ≡ some frame
    → (s' : Space) × (unmap_one area s vpn ≡ some s') × LacksPage start s owner vpn frame s'
unmap_one-LacksPage start s owner area vpn frame b type key =
    let (outer, used) = b.backed vpn frame key in
    let (small, flags, shown) = b.mapped vpn frame key in
    let (a, back, valid, left) = dealloc-in_use start frame b.tree.frames used in
    let s1 : Space = record {
      table = record s.table { data_frames = without vpn s.table.data_frames };
      memory = s.memory;
      frames = a;
    } in
    let apart : (f : ℕ) (path : List ℕ) → owner f ≡ some path → frame == f ≡ false = λ f path o.
      elim (Bool-cases (frame == f)) [
        | inl e ↦ absurd (ground (arith, sym outer ∙ ap owner ((==_iff frame f).0 e) ∙ o))
        | inr n ↦ n
      ] in
    let quiet : IsQuiet start s owner s1 = record {
      frames = valid;
      root = refl;
      used = λ f path o. left f ∙ rw (apart f path o) (b.tree.used f path o);
      same = λ f j path o. refl;
    } in
    let tree = quiet-IsTree start s owner s1 b.tree quiet in
    let same = quiet-page_map start s owner s1 b.tree quiet in
    let (s2, done, c, frames) =
      unmap-Changes start s1 owner vpn (entry frame flags) tree small (same vpn ∙ shown) in
    let entries : (v : ℕ) → v < 2 ^ 27 → page_map s2 v ≡ (if vpn == v then none else page_map s v) =
      λ v l. c.entries v l ∙ rw (same v) refl in
    let keys : (v : ℕ)
        → frame_of v s2.table.data_frames
          ≡ (if vpn == v then none else frame_of v s.table.data_frames) =
      λ v. ap (frame_of v) c.data_frames ∙ frame_of-without v vpn s.table.data_frames in
    let old : (v f : ℕ)
        → frame_of v s2.table.data_frames ≡ some f
        → (vpn == v ≡ false) × (frame_of v s.table.data_frames ≡ some f) =
      λ v f k. elim (Bool-cases (vpn == v)) [
        | inl e ↦
            let z : frame_of v s2.table.data_frames ≡ none = keys v ∙ rw e refl in
            absurd (ground (arith, k, z))
        | inr n ↦ (n, sym (keys v ∙ rw n refl) ∙ k)
      ] in
    let used_after : (f : ℕ)
        → in_use start s2.frames f ≡ (if frame == f then false else in_use start s.frames f) =
      λ f. ap (λ x. in_use start x f) frames ∙ left f in
    (
      s2,
      unmap_one-framed area s vpn frame a type key back ∙ done,
      record {
        backing = record {
          tree = c.tree;
          backed = λ v f k.
              let (n, was) = old v f k in
              let ne : frame == f ≡ false = elim (Bool-cases (frame == f)) [
                | inl e ↦
                    let twice : vpn ≡ v =
                      b.apart vpn v f (key ∙ ap some ((==_iff frame f).0 e)) was in
                    absurd (ground (arith, (==_iff vpn v).1 twice))
                | inr m ↦ m
              ] in
              ((b.backed v f was).0, used_after f ∙ rw ne (b.backed v f was).1);
          apart = λ v w f k l. b.apart v w f (old v f k).1 (old w f l).1;
          mapped = λ v f k.
              let (n, was) = old v f k in
              let (low, flags', shown') = b.mapped v f was in
              (low, flags', entries v low ∙ rw n shown');
        };
        entries = entries;
        frames = keys;
        given_back = used_after;
      },
    )

pub record LacksPages (start : ℕ) (s : Space) (owner : Owner) (pages : List ℕ) (s' : Space)
    : Type 0 where
  pub backing : IsBacked start s' owner
  pub entries :
      (v : ℕ) → v < 2 ^ 27 → page_map s' v ≡ (if contains v pages then none else page_map s v)
  pub given_back :
      (v frame : ℕ)
      → contains v pages ≡ true
      → frame_of v s.table.data_frames ≡ some frame
      → in_use start s'.frames frame ≡ false
  pub still_free : (f : ℕ) → in_use start s.frames f ≡ false → in_use start s'.frames f ≡ false

pub for_each-LacksPages :
    (start : ℕ) (s : Space) (owner : Owner) (area : MapArea) (pages : List ℕ)
    → IsBacked start s owner
    → area.map_type ≡ framed
    → Distinct pages
    → ((v : ℕ)
        → contains v pages ≡ true
        → (frame : ℕ) × (frame_of v s.table.data_frames ≡ some frame))
    → (s' : Space) × (for_each (unmap_one area) s pages ≡ some s')
      × LacksPages start s owner pages s'
for_each-LacksPages start s owner area [] b type d tracked = (
  s,
  refl,
  record {
    backing = b;
    entries = λ v h. refl;
    given_back = λ v frame c k. cc;
    still_free = λ f u. u;
  },
)
for_each-LacksPages start s owner area (vpn ∷ vpns) b type d tracked =
    let (frame, key) = tracked vpn (ground arith) in
    let (s1, done, x) = unmap_one-LacksPage start s owner area vpn frame b type key in
    let stays : (v : ℕ)
        → contains v vpns ≡ true
        → frame_of v s1.table.data_frames ≡ frame_of v s.table.data_frames =
      λ v c. let ne : vpn == v ≡ false = ground (arith, d.0) in x.frames v ∙ rw ne refl in
    let (s2, rest, y) =
      for_each-LacksPages start s1 owner area vpns x.backing type d.1
        (λ v c. let (f, k) = tracked v (ground arith) in (f, stays v c ∙ k)) in
    let free : (f : ℕ) → in_use start s.frames f ≡ false → in_use start s1.frames f ≡ false =
      λ f u. x.given_back f ∙ ground (arith, u) in
    (
      s2,
      ap (λ o. o >>= λ s'. for_each (unmap_one area) s' vpns) done ∙ rest,
      record {
        backing = y.backing;
        entries = λ v h. ground (arith, y.entries v h, x.entries v h);
        given_back = λ v f c k. elim (Bool-cases (contains v vpns)) [
          | inl later ↦ y.given_back v f later (stays v later ∙ k)
          | inr now ↦
              let e : vpn ≡ v = ground arith in
              let same : frame ≡ f =
                some-injective _ _ (sym key ∙ ap (λ w. frame_of w s.table.data_frames) e ∙ k) in
              y.still_free f (x.given_back f ∙ rw ((==_iff frame f).1 same) refl)
        ];
        still_free = λ f u. y.still_free f (free f u);
      },
    )
