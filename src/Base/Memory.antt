-- ===== src/Base/Memory.antt =====
-- Memory as a function from addresses to bytes, and the little-endian fields of the structures in it.
use Prim.Native.Nat.{ℕ, zero, suc, ◌+◌, ◌-◌, ◌*◌, ◌/◌, ◌%◌, ◌^◌, ◌≤◌, ◌<◌}
use mathlib.Core.Path.{◌≡◌, refl, sym, ap, ap₂, ◌∙◌}
use mathlib.Core.Logic.{◌⊎◌, inl, inr}
use mathlib.Core.Bool.{◌&&◌}
use mathlib.Core.List.{List, [], ◌∷◌, ◌++◌, append_assoc}
use native.Mathlib.Omega.{arith}
use native.Mathlib.Nat.{pow-suc}
use leech_core.Base.Tests.{ltb, leb, if◌then◌else◌}
use leech_core.Base.Lists.{length, get_or, length-append}

abbrev pub Memory : Type 0
Memory = ℕ → ℕ

-- `memcpy` of a list of bytes to an address.
pub blit : ℕ → List ℕ → Memory → Memory
blit dst bytes f =
    λ a. if leb dst a && ltb a (dst + length bytes) then get_or bytes (a - dst) 0 else f a

-- The `n` bytes at an address.
unfoldable pub load : ℕ → ℕ → Memory → List ℕ
load a zero f = []
load a (suc n) f = f a ∷ load (suc a) n f

-- The `n` lowest bytes of a number, and the number that bytes stand for.
pub le_bytes : ℕ → ℕ → List ℕ
le_bytes zero v = []
le_bytes (suc n) v = v % 256 ∷ le_bytes n (v / 256)

pub le_value : List ℕ → ℕ
le_value [] = 0
le_value (b ∷ bs) = b + 256 * le_value bs

pub length-load : (a n : ℕ) (f : Memory) → length (load a n f) ≡ n
unfolding load
length-load a zero f = refl
length-load a (suc n) f = ap suc (length-load (suc a) n f)

pub length-le_bytes : (n v : ℕ) → length (le_bytes n v) ≡ n
unfolding le_bytes
length-le_bytes zero v = refl
length-le_bytes (suc n) v = ap suc (length-le_bytes n (v / 256))

pub le_value-le_bytes : (n v : ℕ) → v < 256 ^ n → le_value (le_bytes n v) ≡ v
unfolding le_value le_bytes
le_value-le_bytes zero v h = omega arith
le_value-le_bytes (suc n) v h =
    omega (arith, le_value-le_bytes n (v / 256) (omega (arith, pow-suc 256 n)))

-- Bytes outside the copy stay.
pub blit_outside :
    (dst : ℕ) (bytes : List ℕ) (f : Memory) (a : ℕ)
    → (a < dst) ⊎ (dst + length bytes ≤ a)
    → blit dst bytes f a ≡ f a
unfolding blit
blit_outside dst bytes f a (inl h) = ground arith
blit_outside dst bytes f a (inr h) = ground arith

pub blit_inside :
    (dst : ℕ) (bytes : List ℕ) (f : Memory) (a : ℕ)
    → dst ≤ a
    → a < dst + length bytes
    → blit dst bytes f a ≡ get_or bytes (a - dst) 0
unfolding blit
blit_inside dst bytes f a h k = ground arith

pub load-blit_apart :
    (a n dst : ℕ) (bytes : List ℕ) (f : Memory)
    → (a + n ≤ dst) ⊎ (dst + length bytes ≤ a)
    → load a n (blit dst bytes f) ≡ load a n f
unfolding load
load-blit_apart a zero dst bytes f h = refl
load-blit_apart a (suc n) dst bytes f h =
    ap₂ ◌∷◌ (blit_outside dst bytes f a (omega arith))
      (load-blit_apart (suc a) n dst bytes f (omega arith))

get_or-append_at :
    (pre bytes : List ℕ) (b i : ℕ) → i ≡ length pre → get_or (pre ++ (b ∷ bytes)) i 0 ≡ b
get_or-append_at [] bytes b i e = ap (λ (k : ℕ). get_or (b ∷ bytes) k 0) e
get_or-append_at (x ∷ pre) bytes b zero e = absurd (omega arith)
get_or-append_at (x ∷ pre) bytes b (suc i) e = get_or-append_at pre bytes b i (omega arith)

-- A part of a copy that is read back.
load-blit_part :
    (pre bytes : List ℕ) (a dst : ℕ) (f : Memory)
    → a ≡ dst + length pre
    → load a (length bytes) (blit dst (pre ++ bytes) f) ≡ bytes
unfolding load
load-blit_part pre [] a dst f e = refl
load-blit_part pre (b ∷ bytes) a dst f e =
    ap₂ ◌∷◌
      (blit_inside dst (pre ++ (b ∷ bytes)) f a (omega arith)
          (omega (arith, length-append pre (b ∷ bytes)))
        ∙ get_or-append_at pre bytes b (a - dst) (omega arith))
      (ap (λ (whole : List ℕ). load (suc a) (length bytes) (blit dst whole f))
          (sym (append_assoc pre (b ∷ []) bytes))
        ∙ load-blit_part (pre ++ (b ∷ [])) bytes (suc a) dst f
            (omega (arith, length-append pre (b ∷ []))))

pub load-blit :
    (dst n : ℕ) (bytes : List ℕ) (f : Memory)
    → n ≡ length bytes
    → load dst n (blit dst bytes f) ≡ bytes
load-blit dst n bytes f e =
    ap (λ (k : ℕ). load dst k (blit dst bytes f)) e
    ∙ load-blit_part [] bytes dst dst f (omega arith)

-- Two memories that agree, byte by byte, give the same load.
pub load-ext :
    (a b n : ℕ) (f g : Memory) → ((k : ℕ) → k < n → f (a + k) ≡ g (b + k)) → load a n f ≡ load b n g
unfolding load
load-ext a b zero f g same = refl
load-ext a b (suc n) f g same =
    ap₂ ◌∷◌ (ap f (omega arith) ∙ same 0 (omega arith) ∙ ap g (omega arith)) (
      load-ext (suc a) (suc b) n f g
        (λ k lt. ap f (omega arith) ∙ same (suc k) (omega arith) ∙ ap g (omega arith)))

pub get_or-load : (a n : ℕ) (f : Memory) (k d : ℕ) → k < n → get_or (load a n f) k d ≡ f (a + k)
unfolding load
get_or-load a zero f k d lt = absurd (omega arith)
get_or-load a (suc n) f zero d lt = ap f (omega arith)
get_or-load a (suc n) f (suc k) d lt =
    get_or-load (suc a) n f k d (omega arith) ∙ ap f (omega arith)
