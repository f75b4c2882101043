-- ===== src/MemScatter/Same.antt =====
-- Chunks that differ in their address and flag at most.
use leech_core.Base.{ℕ, ◌<◌, ap, arith, get_or, ◌≡◌, refl, ◌∙◌, List, [], ◌∷◌, ◌++◌, All₂}
use leech_core.MemScatter.{Mem}

-- The second chunk has the buffer and the stack of the first.
pub record SameStack (mem mem' : Mem) : Type 0 where
  pub cb : mem'.cb ≡ mem.cb
  pub pb : mem'.pb ≡ mem.pb
  pub i_stack : mem'.i_stack ≡ mem.i_stack
  pub v_stack : mem'.v_stack ≡ mem.v_stack

-- The second chunk has the buffer of the first, the height of its stack, and the values on it; what
-- stood above the height may differ.
pub record SameBelow (mem mem' : Mem) : Type 0 where
  pub cb : mem'.cb ≡ mem.cb
  pub pb : mem'.pb ≡ mem.pb
  pub i_stack : mem'.i_stack ≡ mem.i_stack
  pub below : (k : ℕ) → k < mem.i_stack → get_or mem'.v_stack k 0 ≡ get_or mem.v_stack k 0

SameStack-SameBelow : {mem mem' : Mem} → SameStack mem mem' → SameBelow mem mem'
SameStack-SameBelow s = record {
  cb = s.cb;
  pb = s.pb;
  i_stack = s.i_stack;
  below = λ k lt. ap (λ (xs : List ℕ). get_or xs k 0) s.v_stack;
}

pub All₂-SameBelow : (ms bs : List Mem) → All₂ SameStack ms bs → All₂ SameBelow ms bs
All₂-SameBelow [] [] s = tt
All₂-SameBelow [] (b ∷ bs) s = elim s [ ]
All₂-SameBelow (a ∷ ms) [] s = elim s [ ]
All₂-SameBelow (a ∷ ms) (b ∷ bs) (s, ss) = (SameStack-SameBelow s, All₂-SameBelow ms bs ss)

-- A chunk that keeps its stack, and then what is on it.
pub All₂-then :
    (ms bs cs : List Mem) → All₂ SameStack ms bs → All₂ SameBelow bs cs → All₂ SameBelow ms cs
All₂-then [] [] [] r s = tt
All₂-then [] [] (c ∷ cs) r s = elim s [ ]
All₂-then [] (b ∷ bs) cs r s = elim r [ ]
All₂-then (a ∷ ms) [] cs r s = elim r [ ]
All₂-then (a ∷ ms) (b ∷ bs) [] r s = elim s [ ]
All₂-then (a ∷ ms) (b ∷ bs) (c ∷ cs) (r, rs) (s, ss) = (
  record {
    cb = s.cb ∙ r.cb;
    pb = s.pb ∙ r.pb;
    i_stack = s.i_stack ∙ r.i_stack;
    below = λ k lt.
        s.below k (omega (arith, lt, r.i_stack)) ∙ ap (λ (xs : List ℕ). get_or xs k 0) r.v_stack;
  },
  All₂-then ms bs cs rs ss,
)

pub SameStack-refl : (mem : Mem) → SameStack mem mem
SameStack-refl mem = record { cb = refl; pb = refl; i_stack = refl; v_stack = refl }

SameStack-trans : {a b c : Mem} → SameStack a b → SameStack b c → SameStack a c
SameStack-trans r s = record {
  cb = s.cb ∙ r.cb;
  pb = s.pb ∙ r.pb;
  i_stack = s.i_stack ∙ r.i_stack;
  v_stack = s.v_stack ∙ r.v_stack;
}

pub All₂-refl : (mems : List Mem) → All₂ SameStack mems mems
All₂-refl [] = tt
All₂-refl (mem ∷ mems) = (SameStack-refl mem, All₂-refl mems)

pub All₂-trans :
    (ms bs cs : List Mem) → All₂ SameStack ms bs → All₂ SameStack bs cs → All₂ SameStack ms cs
All₂-trans [] [] [] r s = tt
All₂-trans [] [] (c ∷ cs) r s = elim s [ ]
All₂-trans [] (b ∷ bs) cs r s = elim r [ ]
All₂-trans (a ∷ ms) [] cs r s = elim r [ ]
All₂-trans (a ∷ ms) (b ∷ bs) [] r s = elim s [ ]
All₂-trans (a ∷ ms) (b ∷ bs) (c ∷ cs) (r, rs) (s, ss) =
    (SameStack-trans r s, All₂-trans ms bs cs rs ss)

pub All₂-append :
    (ms bs cs ds : List Mem)
    → All₂ SameStack ms bs
    → All₂ SameStack cs ds
    → All₂ SameStack (ms ++ cs) (bs ++ ds)
All₂-append [] [] cs ds r s = s
All₂-append [] (b ∷ bs) cs ds r s = elim r [ ]
All₂-append (a ∷ ms) [] cs ds r s = elim r [ ]
All₂-append (a ∷ ms) (b ∷ bs) cs ds (r, rs) s = (r, All₂-append ms bs cs ds rs s)
