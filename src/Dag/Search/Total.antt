-- ===== src/Dag/Search/Total.antt =====
-- The search ends: every call from a white node colors one node, so the number of white tasks is
-- fuel enough. No invariant of the search is needed for this.
use task_orchestrator_engine.Prelude.{
  ℕ, zero, suc, ◌≤◌, ◌<◌, ◌≡◌, refl, ◌⊎◌, inl, inr, Bool, true, false, Option, none, some, List, [],
  ◌∷◌, arith, length, put, ◌==◌, if◌then◌else◌, ==_iff,
}
use task_orchestrator_engine.Types.{Ident, TaskDefinition}
use task_orchestrator_engine.Dag.Graph.{Adjacency, neighbors_of, is_task}
use task_orchestrator_engine.Dag.Search.{
  Color, white, gray, black, Trail, Outcome, record_cycle, scan, enter, leave, close, dfs,
  all_white, fresh_path, start,
}

abbrev pub is_white : Option Color → Bool
is_white (some white) = true
is_white _ = false

all_white_lem :
    (ts : List TaskDefinition) (c : Ident → Option Color) (x : Ident)
    → all_white ts c x ≡ (if is_task ts x then some white else c x)
unfolding all_white
all_white_lem [] c x = refl
all_white_lem (t ∷ ts) c x = ground (arith, all_white_lem ts (put c t.id (some white)) x)

-- At the start the tasks are white and other nodes have no color.
pub start_color :
    (tasks : List TaskDefinition) (x : Ident)
    → (start tasks).color x ≡ (if is_task tasks x then some white else none)
unfolding start
start_color tasks x = all_white_lem tasks (λ _. none) x

-- No node became white.
abbrev pub Fewer : Trail → Trail → Type 0
Fewer s s' = (x : Ident) → is_white (s'.color x) ≡ true → is_white (s.color x) ≡ true

abbrev pub Ends : Trail → Outcome → Type 0
Ends s o = (b : Bool) × (s' : Trail) × (o ≡ some (b, s')) × Fewer s s'

pub whites : List TaskDefinition → (Ident → Option Color) → ℕ
whites [] c = 0
whites (t ∷ ts) c = if is_white (c t.id) then suc (whites ts c) else whites ts c

pub whites-le :
    (ts : List TaskDefinition) (c c' : Ident → Option Color)
    → ((x : Ident) → is_white (c' x) ≡ true → is_white (c x) ≡ true)
    → whites ts c' ≤ whites ts c
unfolding whites
whites-le [] c c' h = omega arith
whites-le (t ∷ ts) c c' h = ground (arith, h t.id, whites-le ts c c' h)

same_white :
    (c : Ident → Option Color) (a b : Ident) → (a == b) ≡ true → is_white (c a) ≡ is_white (c b)
same_white c a b h = rw ((==_iff a b).0 h)

whites-lt :
    (ts : List TaskDefinition) (c c' : Ident → Option Color) (node : Ident)
    → ((x : Ident) → is_white (c' x) ≡ true → is_white (c x) ≡ true)
    → is_task ts node ≡ true
    → is_white (c node) ≡ true
    → is_white (c' node) ≡ false
    → whites ts c' < whites ts c
unfolding whites
whites-lt [] c c' node h m w g = cc
whites-lt (t ∷ ts) c c' node h m w g = ground (
  arith,
  h t.id,
  whites-le ts c c' h,
  whites-lt ts c c' node h,
  same_white c node t.id,
  same_white c' node t.id,
)

pub whites_le_length :
    (ts : List TaskDefinition) (c : Ident → Option Color) → whites ts c ≤ length ts
unfolding whites
whites_le_length [] c = omega arith
whites_le_length (t ∷ ts) c = ground (arith, whites_le_length ts c)

pub Color-cases :
    (o : Option Color) → (o ≡ none) ⊎ ((o ≡ some white) ⊎ ((o ≡ some gray) ⊎ (o ≡ some black)))
Color-cases none = inl refl
Color-cases (some white) = inr (inl refl)
Color-cases (some gray) = inr (inr (inl refl))
Color-cases (some black) = inr (inr (inr refl))

gray_fewer :
    (node : Ident) (s : Trail)
    → is_white (s.color node) ≡ true
    → (x : Ident) → is_white (put s.color node (some gray) x) ≡ true
    → is_white (s.color x) ≡ true
gray_fewer node s w x h = ground arith

gray_there : (node : Ident) (s : Trail) → is_white (put s.color node (some gray) node) ≡ false
gray_there node s = ground arith

black_fewer :
    (node : Ident) (t : Trail) (x : Ident)
    → is_white (put t.color node (some black) x) ≡ true
    → is_white (t.color x) ≡ true
black_fewer node t x h = ground arith

close-Ends :
    (adjacency : Adjacency) (finish : Ident → List Ident → List Ident) (node : Ident) (s : Trail)
    (b : Bool) (t : Trail)
    → Fewer s t
    → Ends s (close adjacency finish node (some (b, t)))
unfolding close leave
close-Ends adjacency finish node s true t few = (true, t, refl, few)
close-Ends adjacency finish node s false t few =
    (false, leave adjacency finish node t, refl, λ x w. few x (black_fewer node t x w))

module _ (tasks : List TaskDefinition) where
  -- White nodes are tasks, and at most `fuel` tasks are white.
  pub record Fits (fuel : ℕ) (s : Trail) : Type 0 where
    pub known : (x : Ident) → is_white (s.color x) ≡ true → is_task tasks x ≡ true
    pub bound : whites tasks s.color ≤ fuel

  pub Fits-Fewer : (fuel : ℕ) (s s' : Trail) → Fewer s s' → Fits fuel s → Fits fuel s'
  Fits-Fewer fuel s s' few fits = record {
    known = λ x w. fits.known x (few x w);
    bound = omega (arith, whites-le tasks s.color s'.color few, fits.bound);
  }

  Fits-enter :
      (fuel : ℕ) (node : Ident) (s : Trail)
      → is_white (s.color node) ≡ true
      → Fits (suc fuel) s
      → Fits fuel (enter node s)
  unfolding enter
  Fits-enter fuel node s w fits =
      let few = gray_fewer node s w in
      record {
        known = λ x h. fits.known x (few x h);
        bound = omega (
          arith,
          whites-lt tasks s.color (put s.color node (some gray)) node few (fits.known node w) w
              (gray_there node s),
          fits.bound,
        );
      }

  module _ (fuel : ℕ) (visit : Ident → Trail → Outcome)
      (visit_ends : (n : Ident) (s : Trail)
        → is_white (s.color n) ≡ true
        → Fits fuel s
        → Ends s (visit n s)) where
    scan_white :
        (n : Ident) (ns : List Ident) (s : Trail) (b : Bool) (s' : Trail)
        → s.color n ≡ some white
        → visit n s ≡ some (b, s')
        → Fewer s s'
        → Ends s' (scan visit ns s')
        → Ends s (scan visit (n ∷ ns) s)
    unfolding scan
    scan_white n ns s true s' e v few rest = (true, s', rw (e, scan, v), few)
    scan_white n ns s false s' e v few (b, t, r, few') =
        (b, t, rw (e, scan, v) r, λ x w. few x (few' x w))

    scan-Ends : (ns : List Ident) (s : Trail) → Fits fuel s → Ends s (scan visit ns s)
    unfolding scan
    scan-Ends [] s fits = (false, s, refl, λ x w. w)
    scan-Ends (n ∷ ns) s fits = elim (Color-cases (s.color n)) [
      | inl e ↦ rw (e, scan) (scan-Ends ns s fits)
      | inr (inl e) ↦
          let (b, s', v, few) = visit_ends n s (rw e refl) fits in
          scan_white n ns s b s' e v few (scan-Ends ns s' (Fits-Fewer fuel s s' few fits))
      | inr (inr (inl e)) ↦ (true, record_cycle n s, rw (e, scan), λ x w. w)
      | inr (inr (inr e)) ↦ rw (e, scan) (scan-Ends ns s fits)
    ]

  pub dfs-Ends :
      (adjacency : Adjacency) (finish : Ident → List Ident → List Ident) (fuel : ℕ) (node : Ident)
      (s : Trail)
      → is_white (s.color node) ≡ true
      → Fits fuel s
      → Ends s (dfs adjacency finish fuel node s)
  unfolding dfs enter
  dfs-Ends adjacency finish zero node s w fits = absurd (
      omega (
        arith,
        whites-lt tasks s.color (put s.color node (some gray)) node (gray_fewer node s w)
            (fits.known node w) w (gray_there node s),
        fits.bound,
      ))
  dfs-Ends adjacency finish (suc fuel) node s w fits =
      let visit = dfs adjacency finish fuel in
      let (b, s', e, few) =
        scan-Ends fuel visit (dfs-Ends adjacency finish fuel) (neighbors_of (adjacency node))
          (enter node s) (Fits-enter fuel node s w fits) in
      rw e (close-Ends adjacency finish node s b s' (λ x h. gray_fewer node s w x (few x h)))

  pub call-Ends :
      (adjacency : Adjacency) (finish : Ident → List Ident → List Ident) (fuel : ℕ) (node : Ident)
      (s : Trail)
      → is_white (s.color node) ≡ true
      → Fits fuel s
      → Ends s (dfs adjacency finish fuel node (fresh_path s))
  call-Ends adjacency finish fuel node s w fits =
      dfs-Ends adjacency finish fuel node (fresh_path s) w
        (record { known = fits.known; bound = fits.bound })

  pub Fits-start : Fits (length tasks) (start tasks)
  Fits-start = record {
    known = λ x w. ground (arith, start_color tasks x);
    bound = whites_le_length tasks (start tasks).color;
  }

pub white_of : (o : Option Color) → is_white o ≡ true → o ≡ some white
white_of (some white) h = refl
white_of _ h = cc
