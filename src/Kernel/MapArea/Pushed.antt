-- ===== src/Kernel/MapArea/Pushed.antt =====
-- The pages of a framed area, all mapped.
use lemon_core.Base.{
  ℕ, ◌+◌, ◌*◌, ◌^◌, ◌≤◌, ◌<◌, bit_or, ◌≡◌, refl, ap, subst, ◌∙◌, inl, inr, true, false, none, some,
  List, [], ◌∷◌, arith, ◌==◌, ==_iff, Bool-cases, length, ◌>>=◌, contains, All, Distinct,
  contains-All,
}
use lemon_core.Kernel.Frames.Ownership.{in_use}
use lemon_core.Kernel.Frames.Room.{available}
use lemon_core.Kernel.PageEntry.{new as entry}
use lemon_core.Kernel.PageTable.{Space, v_flag}
use lemon_core.Kernel.PageTable.Tree.{Owner}
use lemon_core.Kernel.PageTable.Changes.{page_map}
use lemon_core.Kernel.MapArea.{MapArea, framed, frame_of, map_one, for_each}
use lemon_core.Kernel.MapArea.Backing.{IsBacked, IsKept, HasPage, map_one-HasPage}

-- A page of zeros behind a frame that was not in use.
abbrev pub IsNewPage : ℕ → Space → Space → ℕ → ℕ → Type 0
IsNewPage start s s' flags v =
    (frame : ℕ) × (frame_of v s'.table.data_frames ≡ some frame)
    × (page_map s' v ≡ some (entry frame (bit_or flags v_flag)))
    × (in_use start s.frames frame ≡ false)
    × ((j : ℕ) → s'.memory frame j ≡ 0)

pub record HasPages (start : ℕ) (s : Space) (owner : Owner) (flags : ℕ) (pages : List ℕ)
    (s' : Space) (owner' : Owner) : Type 0 where
  pub backing : IsBacked start s' owner'
  pub inside : (v : ℕ) → contains v pages ≡ true → IsNewPage start s s' flags v
  pub beyond :
      (v : ℕ)
      → contains v pages ≡ false
      → (frame_of v s'.table.data_frames ≡ frame_of v s.table.data_frames)
        × (v < 2 ^ 27 → page_map s' v ≡ page_map s v)
  pub kept : IsKept start s owner s' owner'
  pub room : available s.frames ≤ available s'.frames + 3 * length pages

pub IsKept-trans :
    {start : ℕ} {s s' s'' : Space} {owner owner' owner'' : Owner}
    → IsKept start s owner s' owner'
    → IsKept start s' owner' s'' owner''
    → IsKept start s owner s'' owner''
IsKept-trans a b = record {
  still_used = λ f u. b.still_used f (a.still_used f u);
  outside = λ f j u o.
      let (o', e) = a.outside f j u o in
      let (o'', e') = b.outside f j (a.still_used f u) o' in (o'', e' ∙ e);
}

not_used_before :
    {start : ℕ} {s s' : Space} {owner owner' : Owner} (k : IsKept start s owner s' owner') (f : ℕ)
    → in_use start s'.frames f ≡ false
    → in_use start s.frames f ≡ false
not_used_before {start} {s} k f n = elim (Bool-cases (in_use start s.frames f)) [
  | inl u ↦ absurd (ground (arith, n, k.still_used f u))
  | inr m ↦ m
]

-- One page, and then the others.
then_pages :
    {start : ℕ} {s s1 s2 : Space} {owner owner1 owner2 : Owner} (vpn frame flags : ℕ)
    (vpns : List ℕ)
    → vpn < 2 ^ 27
    → contains vpn vpns ≡ false
    → HasPage start s owner vpn frame flags s1 owner1
    → HasPages start s1 owner1 flags vpns s2 owner2
    → HasPages start s owner flags (vpn ∷ vpns) s2 owner2
then_pages {start} {s} {s1} {s2} {owner} {owner1} vpn frame flags vpns small new a b = record {
  backing = b.backing;
  inside = λ v c. elim (Bool-cases (contains v vpns)) [
    | inl later ↦
        let (f, key, shown, fresh, zeros) = b.inside v later in
        (f, key, shown, not_used_before a.kept f fresh, zeros)
    | inr now ↦
        let e : vpn ≡ v = ground arith in
        let same : vpn == vpn ≡ true = (==_iff vpn vpn).1 refl in
        let key : frame_of vpn s1.table.data_frames ≡ some frame = a.frames vpn ∙ rw same refl in
        let (outer, used) = a.backing.backed vpn frame key in
        subst (IsNewPage start s s2 flags) e (
          frame,
          (b.beyond vpn new).0 ∙ key,
          (b.beyond vpn new).1 small ∙ a.entries vpn small ∙ rw same refl,
          a.fresh,
          λ j. (b.kept.outside frame j used outer).1 ∙ a.zeros j,
        )
  ];
  beyond = λ v c.
      let ne : vpn == v ≡ false = ground arith in
      let rest : contains v vpns ≡ false = ground arith in
      (
        (b.beyond v rest).0 ∙ a.frames v ∙ rw ne refl,
        λ h. (b.beyond v rest).1 h ∙ a.entries v h ∙ rw ne refl,
      );
  kept = IsKept-trans a.kept b.kept;
  room = omega (arith, a.room, b.room);
}

-- Every page of a list mapped: the pages are distinct and have no entry, and three frames are left
-- for each.
pub for_each-HasPages :
    (start : ℕ) (s : Space) (owner : Owner) (area : MapArea) (pages : List ℕ)
    → IsBacked start s owner
    → area.map_type ≡ framed
    → area.map_perm < 2 ^ 8
    → Distinct pages
    → All (λ v. v < 2 ^ 27) pages
    → ((v : ℕ) → contains v pages ≡ true → page_map s v ≡ none)
    → 3 * length pages ≤ available s.frames
    → (s' : Space) × (owner' : Owner) × (for_each (map_one area) s pages ≡ some s')
      × HasPages start s owner area.map_perm pages s' owner'
for_each-HasPages start s owner area [] b type perm d small free room = (
  s,
  owner,
  refl,
  record {
    backing = b;
    inside = λ v c. cc;
    beyond = λ v c. (refl, λ h. refl);
    kept = record { still_used = λ f u. u; outside = λ f j u o. (o, refl) };
    room = omega arith;
  },
)
for_each-HasPages start s owner area (vpn ∷ vpns) b type perm d small free room =
    let (s1, owner1, frame, done, a) =
      map_one-HasPage start s owner area vpn b type perm small.0 (free vpn (ground arith))
        (omega (arith, room)) in
    let (s2, owner2, rest, more) =
      for_each-HasPages start s1 owner1 area vpns a.backing type perm d.1 small.1
        (λ v c.
          let ne : vpn == v ≡ false = ground (arith, d.0) in
          a.entries v (contains-All (λ w. w < 2 ^ 27) v vpns small.1 c)
          ∙ rw ne (free v (ground arith)))
        (omega (arith, room, a.room)) in
    (
      s2,
      owner2,
      ap (λ o. o >>= λ s'. for_each (map_one area) s' vpns) done ∙ rest,
      then_pages vpn frame area.map_perm vpns small.0 d.0 a more,
    )
