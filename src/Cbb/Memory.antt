-- ===== src/Cbb/Memory.antt =====
-- The store under its updates: what a builder keeps, the chain of builders up to the root, and the
-- frame of a call: what it leaves alone in the builders that were there before.
use opssl.Base.{
  ℕ, ◌≤◌, ◌<◌, ◌≡◌, ◌≢◌, ◌==◌, ◌||◌, Bool, true, false, none, some, List, [], ◌∷◌, refl, ap, ◌∙◌,
  Bool-cases, inl, inr, length, take, arith,
}
use opssl.Cbb.{Builder, Store, put}

abbrev pub mem : ℕ → List ℕ → Bool
mem x [] = false
mem x (y ∷ ys) = (x == y) || mem x ys

-- A builder without what growth and children change.
abbrev pub kept : Builder → Builder
kept b = record b { buf = 0; len = 0; cap = 0; child = none }

-- The builders from `p` to the root; each stands above its parent.
abbrev pub Chain : Store → ℕ → List ℕ → Type 0
Chain st p [] = (st.builder p).is_child ≡ false
Chain st p (q ∷ qs) =
    (q < p) × ((st.builder p).is_child ≡ true) × ((st.builder p).parent ≡ some q) × Chain st q qs

-- What a call on `p` leaves alone.
pub record Frame (p : ℕ) (st st' : Store) : Type 0 where
  pub keeps : (x : ℕ) → x ≤ p → kept (st'.builder x) ≡ kept (st.builder x)
  pub children : (x : ℕ) → x < p → (st'.builder x).child ≡ (st.builder x).child

-- A builder that is ready for the next call, with `text` written.
pub record Ready (st : Store) (p : ℕ) (qs : List ℕ) (text : List ℕ) : Type 0 where
  pub chain : Chain st p qs
  pub buf : (x : ℕ) → mem x (p ∷ qs) ≡ true → (st.builder x).buf ≡ (st.builder p).buf
  pub cap : (x : ℕ) → mem x (p ∷ qs) ≡ true → (st.builder x).cap ≡ (st.builder p).cap
  pub size : length (st.memory (st.builder p).buf) ≡ (st.builder p).cap
  pub used : (st.builder p).buf < st.next
  pub fine : (st.builder p).error ≡ false
  pub settled : (st.builder p).child ≡ none
  pub fits : (st.builder p).len ≤ (st.builder p).cap
  pub count : length text ≡ (st.builder p).len
  pub written : take (st.builder p).len (st.memory (st.builder p).buf) ≡ text

pub ==-self : (x : ℕ) → (x == x) ≡ true
==-self x = ground arith

pub ==-ne : (x y : ℕ) → x ≢ y → (x == y) ≡ false
==-ne x y h = ground arith

pub put_self : (st : Store) (p : ℕ) (b : Builder) → (put st p b).builder p ≡ b
put_self st p b = rw (==-self p) refl

pub put_ne :
    (st : Store) (p : ℕ) (b : Builder) (x : ℕ) → x ≢ p → (put st p b).builder x ≡ st.builder x
put_ne st p b x h = rw (==-ne x p h) refl

-- An update that does not touch what `f` reads.
pub put_same_field :
    {A : Type 0} (f : Builder → A) (st : Store) (p : ℕ) (b : Builder)
    → f b ≡ f (st.builder p)
    → (x : ℕ) → f ((put st p b).builder x) ≡ f (st.builder x)
put_same_field f st p b h x = elim (Bool-cases (x == p)) [
  | inl e ↦ rw e (h ∙ ap (λ y. f (st.builder y)) {x = p} {y = x} (ground arith))
  | inr e ↦ rw e refl
]

pub Chain-same :
    (st st' : Store) (p : ℕ) (qs : List ℕ)
    → ((x : ℕ) → x ≤ p → kept (st'.builder x) ≡ kept (st.builder x))
    → Chain st p qs
    → Chain st' p qs
Chain-same st st' p [] same h = ap (λ b. b.is_child) (same p (omega arith)) ∙ h
Chain-same st st' p (q ∷ qs) same (below, child, parent, rest) = (
  below,
  ap (λ b. b.is_child) (same p (omega arith)) ∙ child,
  ap (λ b. b.parent) (same p (omega arith)) ∙ parent,
  Chain-same st st' q qs (λ x h. same x (omega arith)) rest,
)

-- The ancestors stand below.
pub below : (st : Store) (p : ℕ) (qs : List ℕ) (x : ℕ) → Chain st p qs → mem x qs ≡ true → x < p
below st p (q ∷ qs) x (lower, child, parent, rest) h = elim (Bool-cases (x == q)) [
  | inl e ↦ ground arith
  | inr e ↦
      let deep : mem x qs ≡ true = rw e at h in let far = below st q qs x rest deep in omega arith
]
below st p [] x chain h = cc

pub Frame-self : (p : ℕ) (st : Store) → Frame p st st
Frame-self p st = record { keeps = λ x h. refl; children = λ x h. refl }

pub Frame-trans : (p : ℕ) (st mid st' : Store) → Frame p st mid → Frame p mid st' → Frame p st st'
Frame-trans p st mid st' f g = record {
  keeps = λ x h. g.keeps x h ∙ f.keeps x h;
  children = λ x h. g.children x h ∙ f.children x h;
}

pub Frame-weaken : (p q : ℕ) (st st' : Store) → q ≤ p → Frame p st st' → Frame q st st'
Frame-weaken p q st st' h f = record {
  keeps = λ x k. f.keeps x (omega arith);
  children = λ x k. f.children x (omega arith);
}
