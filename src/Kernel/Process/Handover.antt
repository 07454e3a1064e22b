-- ===== src/Kernel/Process/Handover.antt =====
-- What the children and the tasks of a process become while it ends.
use lemon_core.Base.{
  ℕ, ◌≡◌, refl, sym, ap, ◌∙◌, inl, inr, Bool, false, ◌||◌, Option, none, some, List, [], ◌∷◌, ◌++◌,
  append_assoc, append-nil, arith, ◌==◌, if◌then◌else◌, ==_iff, Bool-cases, Option-cases, contains,
}
use lemon_core.Kernel.Slots.{Slots}
use lemon_core.Kernel.Process.{World, at, adopt, take_res, take_res_of}

-- `adopt` gives each of the children the daemon as parent, and puts them behind the daemon's.
pub adopt-children :
    (w : World) (cs : List ℕ)
    → (f : ℕ → Option ℕ) × (g : ℕ → List ℕ) × (adopt w cs ≡ record w { parent = f; children = g })
      × ((j : ℕ) → f j ≡ (if contains j cs then some w.daemon else w.parent j))
      × ((j : ℕ) → g j ≡ (if w.daemon == j then w.children j ++ cs else w.children j))
unfolding adopt
adopt-children w [] = (
  w.parent,
  w.children,
  refl,
  λ j. refl,
  λ j. elim (Bool-cases (w.daemon == j)) [
    | inl e ↦ rw e (sym (append-nil (w.children j)))
    | inr n ↦ rw n refl
  ],
)
adopt-children w (c ∷ cs) =
    let w1 : World = record w {
      parent = at w.parent c (some w.daemon);
      children = at w.children w.daemon (w.children w.daemon ++ (c ∷ []));
    } in
    let (f, g, adopted, parents, lists) = adopt-children w1 cs in
    (
      f,
      g,
      adopted,
      λ j. parents j ∙ ground arith,
      λ j. lists j ∙ elim (Bool-cases (w.daemon == j)) [
        | inl e ↦ rw e (
            append_assoc (w.children w.daemon) (c ∷ []) cs
            ∙ ap (λ x. w.children x ++ (c ∷ cs)) ((==_iff w.daemon j).0 e))
        | inr n ↦ rw n refl
      ],
    )

-- The thread ids that the tasks of a list hold.
abbrev tids_with : (ℕ → Option ℕ) → ℕ → ((ℕ → Option ℕ) → List ℕ) → Option ℕ → List ℕ
tids_with res t next none = next res
tids_with res t next (some tid) = tid ∷ next (at res t none)

abbrev pub tids_of : (ℕ → Option ℕ) → Slots ℕ → List ℕ
tids_of res [] = []
tids_of res (none ∷ ts) = tids_of res ts
tids_of res (some t ∷ ts) = tids_with res t (λ r. tids_of r ts) (res t)

-- Whether a task stands in a list.
abbrev pub holds : ℕ → Slots ℕ → Bool
holds t [] = false
holds t (none ∷ ts) = holds t ts
holds t (some s ∷ ts) = s == t || holds t ts

-- `take_res` takes the ids that the tasks hold, and after it these tasks hold none.
pub take_res-tids_of :
    (w : World) (ts : Slots ℕ)
    → (r : ℕ → Option ℕ) × (take_res w ts ≡ (tids_of w.res ts, record w { res = r }))
      × ((j : ℕ) → r j ≡ (if holds j ts then none else w.res j))
unfolding take_res take_res_of
take_res-tids_of w [] = (w.res, refl, λ j. refl)
take_res-tids_of w (none ∷ ts) = take_res-tids_of w ts
take_res-tids_of w (some t ∷ ts) =
    let (r, taken, after) = take_res-tids_of w ts in
    let (r', taken', after') = take_res-tids_of (record w { res = at w.res t none }) ts in
    elim (Option-cases (w.res t)) [
      | inl e ↦ (
        r,
        rw e taken,
        λ j. after j ∙ elim (Bool-cases (t == j)) [
          | inl h ↦
              let gone : w.res j ≡ none = ap w.res (sym ((==_iff t j).0 h)) ∙ e in
              ground (arith, h, gone)
          | inr n ↦ rw n refl
        ],
      )
      | inr (tid, e) ↦ (r', rw (e, taken') refl, λ j. after' j ∙ ground arith)
    ]
