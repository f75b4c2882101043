-- ===== src/Detect/Top.antt =====
-- What the detection finds on a device that has memory up to an address.
use leech_core.Base.{
  All, All-map, [], ◌∷◌, take-append_left, ℕ, zero, suc, ◌+◌, ◌*◌, ◌/◌, ◌%◌, ◌^◌, ◌≤◌, ◌<◌, ◌≡◌,
  ◌⊎◌, inl, inr, refl, ap, sym, subst, ◌∙◌, arith, Bool-cases, true, false, some, List, length,
  length-map, length-take, length-drop, length-append, if◌then◌else◌, ltb, take, drop, map,
}
use native.Mathlib.Nat.{pow-suc}
use leech_core.MemScatter.{Mem}
use leech_core.MemScatter.Stack.{IsDocumented}
use leech_core.Scatter.{Context}
use leech_core.Detect.{probe, last_found, set_size, detect_coarse, detect_fine, finish, detect}
use leech_core.Detect.Round.{HasMemory, IsReady, probe-Shown}

length-set_size : (mems : List Mem) → length mems ≡ 17 → length (set_size mems) ≡ 17
length-set_size mems n =
    let f = λ (mem : Mem). record mem { cb = 8 } in
    length-append (map f (take 16 mems)) (drop 16 mems)
    ∙ omega (arith, n, length-map (take 16 mems) f, length-take 16 mems, length-drop 16 mems)

-- The chunks as `LcAllocScatter1` gives them, and as the first loop sets their sizes.
set_size-IsReady :
    (n : ℕ) (mems : List Mem)
    → All IsDocumented (take n mems)
    → All IsReady (map (λ (mem : Mem). record mem { cb = 8 }) (take n mems))
set_size-IsReady zero mems h = tt
set_size-IsReady (suc n) [] h = tt
set_size-IsReady (suc n) (x ∷ xs) (d, h) = ((refl, d), set_size-IsReady n xs h)

take-set_size :
    (mems : List Mem)
    → length mems ≡ 17
    → take 16 (set_size mems) ≡ map (λ (mem : Mem). record mem { cb = 8 }) (take 16 mems)
take-set_size mems n =
    let f = λ (mem : Mem). record mem { cb = 8 } in
    take-append_left 16 (map f (take 16 mems)) (drop 16 mems)
      (omega (arith, n, length-map (take 16 mems) f, length-take 16 mems))

IsReady-set_size :
    (mems : List Mem)
    → length mems ≡ 17
    → All IsDocumented (take 16 mems)
    → All IsReady (take 16 (set_size mems))
IsReady-set_size mems n h =
    subst (λ xs. All IsReady xs) (sym (take-set_size mems n)) (set_size-IsReady 16 mems h)

IsReady-IsDocumented : (mems : List Mem) → All IsReady mems → All IsDocumented mems
IsReady-IsDocumented mems h = All-map mems (λ mem r. r.1) h

-- The first loop ends at an address from which the end of the memory is at most 4GB away.
record Coarse (ctx : Context) (top fuel pa : ℕ) (mems : List Mem) : Type 0 where
  r : ℕ
  left : List Mem
  ends : detect_coarse fuel ctx pa mems ≡ some (r, left)
  sized : length left ≡ 17
  ready : All IsReady (take 16 left)
  above : pa ≤ r
  inside : r < top
  near : top ≤ r + 0x0001_0000_0000
  page : r % 0x1000 ≡ 0

sixteen-pos : (k : ℕ) → 0 < 16 ^ k
sixteen-pos zero = omega arith
sixteen-pos (suc k) = omega (arith, pow-suc 16 k, sixteen-pos k)

module _ (ctx : Context) (top : ℕ) (has : HasMemory ctx top) (small : top < 2 ^ 63) where
  coarse :
      (fuel pa : ℕ) (mems : List Mem)
      → length mems ≡ 17
      → All IsDocumented (take 16 mems)
      → pa < top
      → pa % 0x1000 ≡ 0
      → top ≤ pa + fuel * 0x000e_0000_0000
      → Coarse ctx top fuel pa mems
  unfolding detect_coarse
  coarse zero pa mems n room lt even enough = absurd (omega arith)
  coarse (suc fuel) pa mems n room lt even enough =
      let s =
        probe-Shown ctx top pa 0x0001_0000_0000 (set_size mems) has (length-set_size mems n)
          (IsReady-set_size mems n room) even refl (omega (arith, small)) in
      let f = s.found lt in
      let mems' = probe ctx pa 0x0001_0000_0000 (set_size mems) in
      let pa' = last_found pa (take 16 mems') in
      let page : pa' % 0x1000 ≡ 0 = omega (arith, f.at, even) in
      elim (Bool-cases (ltb (pa + 15 * 0x0001_0000_0000) top)) [
        | inl t ↦
            let far : pa + 15 * 0x0001_0000_0000 < top = ground (arith, t) in
            let rest =
              coarse fuel pa' mems' s.sized (IsReady-IsDocumented _ s.ready) f.inside page
                (omega (arith, far, f.near, enough)) in
            record {
              r = rest.r;
              left = rest.left;
              ends = simp (detect_coarse, s.last, t) (rest.ends);
              sized = rest.sized;
              ready = rest.ready;
              above = omega (arith, f.above, rest.above);
              inside = rest.inside;
              near = rest.near;
              page = rest.page;
            }
        | inr t ↦
            let close : top ≤ pa + 15 * 0x0001_0000_0000 = ground (arith, t) in
            record {
              r = pa';
              left = mems';
              ends = simp (detect_coarse, s.last, t);
              sized = s.sized;
              ready = s.ready;
              above = f.above;
              inside = f.inside;
              near = omega (arith, close, f.near, f.inside);
              page = page;
            }
      ]

  fine-step :
      (fuel pa chunk : ℕ) (mems : List Mem)
      → 0x1000 < chunk
      → detect_fine (suc fuel) ctx pa chunk mems
        ≡ detect_fine fuel ctx
            (last_found pa (take 16 (probe ctx pa (chunk / 16) mems)))
            (chunk / 16)
            (probe ctx pa (chunk / 16) mems)
  unfolding detect_fine
  fine-step fuel pa chunk mems large =
      let t : ltb 0x1000 chunk ≡ true = ground (arith, large) in simp (detect_fine, t)

  -- The address is the last page of the memory.
  IsLast : ℕ → Type 0
  IsLast r = (r < top) × (top ≤ r + 0x1000) × (r % 0x1000 ≡ 0)

  abbrev next : ℕ → ℕ → List Mem → ℕ
  next pa chunk mems = last_found pa (take 16 (probe ctx pa chunk mems))

  fine :
      (fuel pa : ℕ) (mems : List Mem)
      → length mems ≡ 17
      → All IsReady (take 16 mems)
      → pa < top
      → pa % 0x1000 ≡ 0
      → top ≤ pa + 0x1000 * 16 ^ fuel
      → 0x1000 * 16 ^ fuel ≤ 2 ^ 32
      → IsLast (detect_fine (suc fuel) ctx pa (0x1000 * 16 ^ fuel) mems)
  unfolding detect_fine IsLast
  fine zero pa mems n ready lt even near low = (lt, near, even)
  fine (suc fuel) pa mems n ready lt even near low =
      let step = 0x1000 * 16 ^ fuel in
      let grown : 0x1000 * 16 ^ suc fuel ≡ 16 * step = omega (arith, pow-suc 16 fuel) in
      let less : 0x1000 * 16 ^ suc fuel / 16 ≡ step = omega (arith, grown) in
      let s =
        probe-Shown ctx top pa step mems has n ready even (omega arith)
          (omega (arith, small, low, grown)) in
      let f = s.found lt in
      let whole : f.steps * step ≡ 0x1000 * (f.steps * 16 ^ fuel) = omega arith in
      let page : next pa step mems % 0x1000 ≡ 0 = omega (arith, f.at, whole, even) in
      let eq =
        fine-step (suc fuel) pa (0x1000 * 16 ^ suc fuel) mems
          (omega (arith, grown, sixteen-pos fuel))
        ∙ ap (λ k. detect_fine (suc fuel) ctx (next pa k mems) k (probe ctx pa k mems)) less in
      subst IsLast (sym eq) (
        fine fuel (next pa step mems) (probe ctx pa step mems) s.sized s.ready f.inside page
          (omega (arith, f.near, near, grown)) (omega (arith, low, grown)))

  fine_none :
      (fuel pa : ℕ) (mems : List Mem)
      → length mems ≡ 17
      → All IsReady (take 16 mems)
      → top ≤ pa
      → pa % 0x1000 ≡ 0
      → pa ≤ 2 ^ 32
      → 0x1000 * 16 ^ fuel ≤ 2 ^ 32
      → detect_fine (suc fuel) ctx pa (0x1000 * 16 ^ fuel) mems ≡ pa
  unfolding detect_fine
  fine_none zero pa mems n ready past even bound low = refl
  fine_none (suc fuel) pa mems n ready past even bound low =
      let step = 0x1000 * 16 ^ fuel in
      let grown : 0x1000 * 16 ^ suc fuel ≡ 16 * step = omega (arith, pow-suc 16 fuel) in
      let less : 0x1000 * 16 ^ suc fuel / 16 ≡ step = omega (arith, grown) in
      let s =
        probe-Shown ctx top pa step mems has n ready even (omega arith)
          (omega (arith, bound, low, grown)) in
      let mems' = probe ctx pa step mems in
      fine-step (suc fuel) pa (0x1000 * 16 ^ suc fuel) mems (omega (arith, grown, sixteen-pos fuel))
      ∙ ap (λ k. detect_fine (suc fuel) ctx (next pa k mems) k (probe ctx pa k mems)) less
      ∙ ap (λ a. detect_fine (suc fuel) ctx a step mems') (s.none_found past)
      ∙ fine_none fuel pa mems' s.sized s.ready past even bound (omega (arith, low, grown))

  coarse_none :
      (fuel : ℕ) (mems : List Mem)
      → length mems ≡ 17
      → All IsDocumented (take 16 mems)
      → top ≤ 0x0001_0000_0000
      → detect_coarse (suc fuel) ctx 0x0001_0000_0000 mems
        ≡ some (0x0001_0000_0000, probe ctx 0x0001_0000_0000 0x0001_0000_0000 (set_size mems))
  unfolding detect_coarse
  coarse_none fuel mems n room past =
      let s =
        probe-Shown ctx top 0x0001_0000_0000 0x0001_0000_0000 (set_size mems) has
          (length-set_size mems n) (IsReady-set_size mems n room) refl refl (omega arith) in
      let missed : ltb (0x0001_0000_0000 + 15 * 0x0001_0000_0000) top ≡ false =
        ground (arith, past) in
      simp (detect_coarse, s.last, missed, s.none_found past)

  detect-ends :
      (fuel r : ℕ) (mems left : List Mem)
      → detect_coarse fuel ctx 0x0001_0000_0000 mems ≡ some (r, left)
      → detect fuel ctx mems ≡ some (finish (detect_fine 6 ctx r 0x0001_0000_0000 left))
  unfolding detect
  detect-ends fuel r mems left e = simp (detect, e)

  finish-last :
      (v : ℕ)
      → v + 0x1000 ≡ top
      → top % 0x1000 ≡ 0
      → 0x0001_0000_0000 < top
      → finish v ≡ (if ltb 0x0001_0000_1000 top then top else 0x0001_0000_0000)
  unfolding finish
  finish-last v sum even lt = ground (arith, small)

  finish-least : some (finish 0x0001_0000_0000) ≡ some 0x0001_0000_0000
  unfolding finish
  finish-least = refl

  -- On a handle whose reads of unmarked chunks of 8 bytes at the start of a page succeed exactly below
  -- `top`, a multiple of 4KB below 2^63, and keep the chunks' addresses and sizes and the room on
  -- their stacks, the detection with 17 chunks ends, with fuel for the distance from 4GB to `top`.
  -- Its result is `top`, or 4GB for a memory that ends at most one page above 4GB.
  pub detect-top :
      (fuel : ℕ) (mems : List Mem)
      → length mems ≡ 17
      → All IsDocumented (take 16 mems)
      → top % 0x1000 ≡ 0
      → top ≤ 0x0001_0000_0000 + suc fuel * 0x000e_0000_0000
      → detect (suc fuel) ctx mems
        ≡ some (if ltb 0x0001_0000_1000 top then top else 0x0001_0000_0000)
  unfolding IsLast
  detect-top fuel mems n room even enough =
      let start : (0x0001_0000_0000 < top) ⊎ (top ≤ 0x0001_0000_0000) = omega arith in
      elim start [
        | inl lt ↦
            let c = coarse (suc fuel) 0x0001_0000_0000 mems n room lt refl enough in
            let (inside, near, page) =
              fine 5 c.r c.left c.sized c.ready c.inside c.page (omega (arith, c.near))
                (omega arith) in
            let sum : detect_fine 6 ctx c.r 0x0001_0000_0000 c.left + 0x1000 ≡ top =
              omega (arith, inside, near, page, even) in
            detect-ends (suc fuel) c.r mems c.left c.ends
            ∙ ap some (finish-last (detect_fine 6 ctx c.r 0x0001_0000_0000 c.left) sum even lt)
        | inr past ↦
            let s =
              probe-Shown ctx top 0x0001_0000_0000 0x0001_0000_0000 (set_size mems) has
                (length-set_size mems n) (IsReady-set_size mems n room) refl refl (omega arith) in
            let mems' = probe ctx 0x0001_0000_0000 0x0001_0000_0000 (set_size mems) in
            let small_top : ltb 0x0001_0000_1000 top ≡ false = ground (arith, past) in
            detect-ends (suc fuel) 0x0001_0000_0000 mems mems' (coarse_none fuel mems n room past)
            ∙ ap (λ a. some (finish a))
                (fine_none 5 0x0001_0000_0000 mems' s.sized s.ready past refl (omega arith)
                  (omega arith))
            ∙ simp small_top finish-least
      ]
