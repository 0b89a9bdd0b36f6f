-- ===== src/Dag/Search/Colors.antt =====
-- How a map of colors changes when a node is entered and left.
use task_orchestrator_engine.Prelude.{
  ◌≡◌, ap, ◌⊎◌, true, Option, none, some, arith, put, ◌==◌, ==_iff,
}
use task_orchestrator_engine.Types.{Ident}
use task_orchestrator_engine.Dag.Search.{Color, white, gray, black, Trail}

-- How the color of one node may change during a call.
abbrev pub Later : Option Color → Option Color → Type 0
Later none none = Unit
Later (some white) (some white) = Unit
Later (some white) (some black) = Unit
Later (some gray) (some gray) = Unit
Later (some black) (some black) = Unit
Later _ _ = ⊥

pub Later-refl : (o : Option Color) → Later o o
Later-refl none = tt
Later-refl (some white) = tt
Later-refl (some gray) = tt
Later-refl (some black) = tt

pub Later-trans : (a b c : Option Color) → Later a b → Later b c → Later a c
Later-trans a b c h k = ground arith

abbrev pub Grows : Trail → Trail → Type 0
Grows s s' = (x : Ident) → Later (s.color x) (s'.color x)

pub black-Later : (a b : Option Color) → Later a b → a ≡ some black → b ≡ some black
black-Later a b h e = ground arith

pub gray_before : (a b : Option Color) → Later a b → b ≡ some gray → a ≡ some gray
gray_before a b h e = ground arith

pub gray-Later : (a b : Option Color) → Later a b → a ≡ some gray → b ≡ some gray
gray-Later a b h e = ground arith

pub same_key {ℓ} : {A : Type ℓ} (f : Ident → A) (a b : Ident) → (a == b) ≡ true → f a ≡ f b
same_key f a b h = ap f ((==_iff a b).0 h)

module _ (f : Ident → Option Color) (k : Ident) (x : Ident) where
  pub gray_kept : f k ≡ some white → f x ≡ some black → put f k (some gray) x ≡ some black
  gray_kept e h = ground (arith, same_key f x k)

  pub gray_back : put f k (some gray) x ≡ some black → f x ≡ some black
  gray_back h = ground arith

  pub black_kept : f x ≡ some black → put f k (some black) x ≡ some black
  black_kept h = ground arith

  pub put-none : (c : Color) → put f k (some c) x ≡ none → f x ≡ none
  put-none c h = ground arith

  pub none-put : (c c' : Color) → f k ≡ some c' → f x ≡ none → put f k (some c) x ≡ none
  none-put c c' e h = ground (arith, same_key f x k)

  pub black_back : put f k (some black) x ≡ some black → (x ≡ k) ⊎ (f x ≡ some black)
  black_back h = ground arith

pub gray_self : (f : Ident → Option Color) (k : Ident) → put f k (some gray) k ≡ some gray
gray_self f k = ground arith

pub gray_cases :
    (f : Ident → Option Color) (k x : Ident)
    → put f k (some gray) x ≡ some gray
    → (x ≡ k) ⊎ (f x ≡ some gray)
gray_cases f k x h = ground arith

pub black_self : (f : Ident → Option Color) (k : Ident) → put f k (some black) k ≡ some black
black_self f k = ground arith

-- A call colors its node gray, then lets the colors grow, then colors it black.
pub Later-leave :
    (f g : Ident → Option Color) (k x : Ident)
    → f k ≡ some white
    → Later (put f k (some gray) x) (g x)
    → Later (f x) (put g k (some black) x)
Later-leave f g k x e h = ground (arith, same_key f x k)
