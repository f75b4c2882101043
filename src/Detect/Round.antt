-- ===== src/Detect/Round.antt =====
-- One read of the detection, on a device that has memory up to an address.
use leech_core.Base.{
  All, ◌%◌, ℕ, zero, suc, ◌+◌, ◌-◌, ◌*◌, ◌≤◌, ◌<◌, ◌≡◌, ◌⊎◌, inl, inr, refl, ap, sym, subst, ◌∙◌,
  arith, true, false, List, [], ◌∷◌, length, length-take, length-drop, length-append, take, drop,
  take-append_left, get_or, get_or-append_left, All₂-length, All₂-get_or, ◌++◌, ltb, All₂, add64,
  qword,
}
use leech_core.MemScatter.{Mem}
use leech_core.MemScatter.Stack.{IsDocumented}
use leech_core.Scatter.{Context, zero_mem, read_scatter}
use leech_core.Detect.{aim, last_found, probe}

-- A chunk of the detection between two reads: of 8 bytes, and with a stack as high as a call allows.
abbrev pub IsReady : Mem → Type 0
IsReady mem = (mem.cb ≡ 8) × IsDocumented mem

-- A chunk that the detection reads: of 8 bytes at the start of a page, and not marked.
abbrev pub IsAimed : Mem → Type 0
IsAimed mem = (mem.f ≡ false) × (mem.qw_a % 0x1000 ≡ 0) × IsReady mem

-- The chunk was read when its address is below `top`. Its address, its size and the room of its stack
-- are as before.
abbrev pub Answers : ℕ → Mem → Mem → Type 0
Answers top mem mem' =
    (mem'.f ≡ ltb mem.qw_a top) × (mem'.qw_a ≡ mem.qw_a) × (IsReady mem → IsReady mem')

-- From the topmost address `r` that was found, the end of the memory is less than a step away, or
-- the last chunk was found.
pub record Found (top pa chunk n r : ℕ) : Type 0 where
  pub inside : r < top
  pub above : pa ≤ r
  pub steps : ℕ
  pub at : r ≡ pa + steps * chunk
  pub near : (top ≤ r + chunk) ⊎ (r ≡ pa + (n - 1) * chunk)

pub last_found-none :
    (top pa chunk i cur : ℕ) (mems res : List Mem)
    → top ≤ pa + i * chunk
    → pa + (i + length mems) * chunk < qword
    → All₂ (Answers top) (aim pa chunk i mems) res
    → last_found cur res ≡ cur
unfolding aim last_found
last_found-none top pa chunk i cur [] [] past small a = refl
last_found-none top pa chunk i cur [] (y ∷ ys) past small a = elim a [ ]
last_found-none top pa chunk i cur (x ∷ xs) [] past small a = elim a [ ]
last_found-none top pa chunk i cur (x ∷ xs) (y ∷ ys) past small ((f, at, _), a) =
    let at' : add64 pa (i * chunk) ≡ pa + i * chunk = omega (arith, small) in
    let missed : y.f ≡ false = f ∙ ground (arith, at', past) in
    rw missed (
      last_found-none top pa chunk (suc i) cur xs ys (omega (arith, past)) (omega (arith, small)) a)

pub last_found-Found :
    (top pa chunk i cur : ℕ) (mems res : List Mem)
    → pa + i * chunk < top
    → 0 < length mems
    → pa + (i + length mems) * chunk < qword
    → All₂ (Answers top) (aim pa chunk i mems) res
    → Found top pa chunk (i + length mems) (last_found cur res)
unfolding aim last_found
last_found-Found top pa chunk i cur [] res low some small a = absurd (omega arith)
last_found-Found top pa chunk i cur (x ∷ xs) [] low some small a = elim a [ ]
last_found-Found top pa chunk i cur (x ∷ []) (y ∷ (z ∷ zs)) low some small (_, a) = elim a [ ]
last_found-Found top pa chunk i cur (x ∷ []) (y ∷ []) low some small ((f, at, _), a) =
    let at' : add64 pa (i * chunk) ≡ pa + i * chunk = omega (arith, small) in
    let hit : y.f ≡ true = f ∙ ground (arith, at', low) in
    let to : y.qw_a ≡ pa + i * chunk = at ∙ at' in
    let last : i + 1 - 1 ≡ i = omega arith in
    rw (hit, to)
      (record {
        inside = low;
        above = omega arith;
        steps = i;
        at = refl;
        near = inr (ap (λ j. pa + j * chunk) (sym last));
      })
last_found-Found top pa chunk i cur (x ∷ (x' ∷ xs)) (y ∷ ys) low some small ((f, at, _), a) =
    let at' : add64 pa (i * chunk) ≡ pa + i * chunk = omega (arith, small) in
    let hit : y.f ≡ true = f ∙ ground (arith, at', low) in
    let to : y.qw_a ≡ pa + i * chunk = at ∙ at' in
    let more : (pa + suc i * chunk < top) ⊎ (top ≤ pa + suc i * chunk) = omega arith in
    rw (hit, to)
      (elim more [
        | inl lt ↦
            subst (λ n. Found top pa chunk n (last_found (pa + i * chunk) ys)) (omega arith)
              (last_found-Found top pa chunk (suc i) (pa + i * chunk) (x' ∷ xs) ys lt (omega arith)
                (omega (arith, small)) a)
        | inr past ↦
            rw
              (last_found-none top pa chunk (suc i) (pa + i * chunk) (x' ∷ xs) ys past
                (omega (arith, small)) a)
              (record {
                inside = low;
                above = omega arith;
                steps = i;
                at = refl;
                near = inl (omega (arith, past));
              })
      ])

times-page : (i chunk : ℕ) → chunk % 0x1000 ≡ 0 → (i * chunk) % 0x1000 ≡ 0
times-page zero chunk step = omega arith
times-page (suc i) chunk step = omega (arith, times-page i chunk step)

length-aim : (pa chunk i : ℕ) (mems : List Mem) → length (aim pa chunk i mems) ≡ length mems
unfolding aim
length-aim pa chunk i [] = refl
length-aim pa chunk i (x ∷ xs) = ap suc (length-aim pa chunk (suc i) xs)

get_or-aim :
    (pa chunk i j : ℕ) (mems : List Mem) (d : Mem)
    → j < length mems
    → (get_or (aim pa chunk i mems) j d).qw_a ≡ add64 pa ((i + j) * chunk)
unfolding aim
get_or-aim pa chunk i j [] d lt = absurd (omega arith)
get_or-aim pa chunk i zero (x ∷ xs) d lt = ap (λ k. add64 pa (k * chunk)) (omega arith)
get_or-aim pa chunk i (suc j) (x ∷ xs) d lt =
    get_or-aim pa chunk (suc i) j xs d (omega arith) ∙ ap (λ k. add64 pa (k * chunk)) (omega arith)

aim-IsAimed :
    (pa chunk i : ℕ) (mems : List Mem)
    → pa % 0x1000 ≡ 0
    → chunk % 0x1000 ≡ 0
    → All IsReady mems
    → All IsAimed (aim pa chunk i mems)
unfolding aim
aim-IsAimed pa chunk i [] even step h = tt
aim-IsAimed pa chunk i (x ∷ xs) even step (r, h) =
    let whole : (i * chunk) % 0x1000 ≡ 0 = times-page i chunk step in
    ((refl, omega (arith, even, whole), r), aim-IsAimed pa chunk (suc i) xs even step h)

Answers-IsReady :
    (top : ℕ) (mems res : List Mem)
    → All IsAimed mems
    → All₂ (Answers top) mems res
    → All IsReady res
Answers-IsReady top [] [] h a = tt
Answers-IsReady top [] (y ∷ ys) h a = elim a [ ]
Answers-IsReady top (x ∷ xs) [] h a = tt
Answers-IsReady top (x ∷ xs) (y ∷ ys) ((_, _, r), h) ((_, _, keeps), a) =
    (keeps r, Answers-IsReady top xs ys h a)

-- A handle whose reads of chunks like those of the detection succeed exactly below `top`.
pub record HasMemory (ctx : Context) (top : ℕ) : Type 0 where
  pub answers :
      (mems : List Mem) → All IsAimed mems → All₂ (Answers top) mems (read_scatter ctx mems).0

-- What one read of the first 16 of 17 chunks shows.
pub record Shown (top pa chunk : ℕ) (mems' : List Mem) : Type 0 where
  pub sized : length mems' ≡ 17
  pub found : pa < top → Found top pa chunk 16 (last_found pa (take 16 mems'))
  pub none_found : top ≤ pa → last_found pa (take 16 mems') ≡ pa
  pub last : (get_or mems' 15 zero_mem).f ≡ ltb (pa + 15 * chunk) top
  pub ready : All IsReady (take 16 mems')

pub probe-Shown :
    (ctx : Context) (top pa chunk : ℕ) (mems : List Mem)
    → HasMemory ctx top
    → length mems ≡ 17
    → All IsReady (take 16 mems)
    → pa % 0x1000 ≡ 0
    → chunk % 0x1000 ≡ 0
    → pa + 16 * chunk < qword
    → Shown top pa chunk (probe ctx pa chunk mems)
unfolding probe
probe-Shown ctx top pa chunk mems has sized ready even step small =
    let aimed = aim pa chunk 0 (take 16 mems) in
    let res = (read_scatter ctx aimed).0 in
    let aims = aim-IsAimed pa chunk 0 (take 16 mems) even step ready in
    let a = has.answers aimed aims in
    let n : length (take 16 mems) ≡ 16 = length-take 16 mems ∙ omega (arith, sized) in
    let m : length res ≡ 16 =
      sym (All₂-length (Answers top) aimed res a) ∙ length-aim pa chunk 0 (take 16 mems) ∙ n in
    let first : take 16 (res ++ drop 16 mems) ≡ res = take-append_left 16 res (drop 16 mems) m in
    let all : 16 ≡ 0 + length (take 16 mems) = omega (arith, n) in
    let fits : pa + (0 + length (take 16 mems)) * chunk < qword =
      subst (λ k. pa + k * chunk < qword) all small in
    let (f, _, _) =
      All₂-get_or (Answers top) aimed res 15 zero_mem zero_mem a
        (omega (arith, length-aim pa chunk 0 (take 16 mems), n)) in
    let to : (get_or aimed 15 zero_mem).qw_a ≡ pa + 15 * chunk =
      get_or-aim pa chunk 0 15 (take 16 mems) zero_mem (omega (arith, n)) ∙ omega (arith, small) in
    record {
      sized = length-append res (drop 16 mems) ∙ omega (arith, m, sized, length-drop 16 mems);
      found = λ lt.
          subst (λ xs. Found top pa chunk 16 (last_found pa xs)) (sym first)
            (subst (λ k. Found top pa chunk k (last_found pa res)) (sym all)
              (last_found-Found top pa chunk 0 pa (take 16 mems) res (omega arith)
                (omega (arith, n)) fits a));
      none_found = λ past.
          ap (last_found pa) first
          ∙ last_found-none top pa chunk 0 pa (take 16 mems) res (omega arith) fits a;
      last =
          ap (λ (mem : Mem). mem.f)
            (get_or-append_left res (drop 16 mems) 15 zero_mem (omega (arith, m)))
          ∙ f
          ∙ ap (λ k. ltb k top) to;
      ready = subst (λ xs. All IsReady xs) (sym first) (Answers-IsReady top aimed res aims a);
    }
