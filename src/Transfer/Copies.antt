-- ===== src/Transfer/Copies.antt =====
-- The copies that a read makes, at one address.
use leech_core.Base.{
  ℕ, zero, suc, ◌+◌, ◌-◌, ◌≤◌, ◌<◌, ◌≡◌, ◌≢◌, ◌⊎◌, inl, inr, refl, ◌∙◌, ap, sym, subst, arith,
  length, get_or, tabulate,
}
use leech_core.Base.Memory.{Memory, blit, blit_outside, blit_inside}
use leech_core.ReadContigious.{Copy}
use leech_core.Transfer.{copy_all}

abbrev pub Apart : Copy → ℕ → Type 0
Apart c a = (a < c.dst) ⊎ (c.dst + length c.bytes ≤ a)

-- Copies that all miss an address leave its byte.
pub copy_all-Apart :
    (mk : ℕ → Copy) (i k : ℕ) (m : Memory) (a : ℕ)
    → ((l : ℕ) → i ≤ l → l < i + k → Apart (mk l) a)
    → copy_all (tabulate mk i k) m a ≡ m a
unfolding copy_all
copy_all-Apart mk i zero m a away = refl
copy_all-Apart mk i (suc k) m a away =
    let c = mk i in
    copy_all-Apart mk (suc i) k (blit c.dst c.bytes m) a
      (λ l lo hi. away l (omega arith) (omega arith))
    ∙ blit_outside c.dst c.bytes m a (away i (omega arith) (omega arith))

-- When one copy alone meets an address, its byte is there.
pub copy_all-hit :
    (mk : ℕ → Copy) (i k : ℕ) (m : Memory) (a j : ℕ)
    → i ≤ j
    → j < i + k
    → (mk j).dst ≤ a
    → a < (mk j).dst + length (mk j).bytes
    → ((l : ℕ) → i ≤ l → l < i + k → l ≢ j → Apart (mk l) a)
    → copy_all (tabulate mk i k) m a ≡ get_or (mk j).bytes (a - (mk j).dst) 0
unfolding copy_all
copy_all-hit mk i zero m a j lo hi from to away = absurd (omega arith)
copy_all-hit mk i (suc k) m a j lo hi from to away =
    let c = mk i in
    let later : (l : ℕ) → suc i ≤ l → l < suc i + k → l ≢ j → Apart (mk l) a =
      λ l lo' hi' ne. away l (omega arith) (omega arith) ne in
    let here : (j ≡ i) ⊎ (j ≢ i) = omega arith in
    elim here [
      | inl e ↦
          copy_all-Apart mk (suc i) k (blit c.dst c.bytes m) a
            (λ l lo' hi'. later l lo' hi' (omega arith))
          ∙ blit_inside c.dst c.bytes m a (subst (λ t. (mk t).dst ≤ a) e from)
              (subst (λ t. a < (mk t).dst + length (mk t).bytes) e to)
          ∙ ap (λ t. get_or (mk t).bytes (a - (mk t).dst) 0) (sym e)
      | inr ne ↦
          copy_all-hit mk (suc i) k (blit c.dst c.bytes m) a j (omega arith) (omega arith) from to
            later
    ]
