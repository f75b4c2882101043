-- ===== src/Options/Flags.antt =====
-- The four options that can be set and read.
use leech_core.Base.{
  ℕ, ◌≡◌, ◌≢◌, ◌⊎◌, inl, inr, refl, ap, sym, ◌∙◌, arith, true, false, not, Option, none, some, ◌==◌,
}
use leech_core.Options.{
  opt_printf_enable, opt_verbose, opt_verbose_extra, opt_verbose_extra_tlp, Core, one_if, high,
  core_option, set_core_option, Driver, get_option, set_option, device_get,
}

abbrev pub IsFlag : ℕ → Type 0
IsFlag o =
    (o ≡ opt_printf_enable)
    ⊎ ((o ≡ opt_verbose) ⊎ ((o ≡ opt_verbose_extra) ⊎ (o ≡ opt_verbose_extra_tlp)))

-- A core option that was set reads as whether its value was not 0, and every option whose high DWORD
-- is another one reads as before.
record WasSet (c c' : Core) (o v : ℕ) : Type 0 where
  own : core_option c' o ≡ some (some (one_if (not (v == 0))))
  others : (x : ℕ) → high x ≢ o → core_option c' x ≡ core_option c x
  same_open : c'.is_open ≡ c.is_open
  same_remote : c'.f_remote ≡ c.f_remote

set_core_option-WasSet :
    (c : Core) (o v : ℕ)
    → IsFlag o
    → (c' : Core) × (set_core_option c o v ≡ some c') × WasSet c c' o v
unfolding set_core_option core_option
set_core_option-WasSet c o v (inl e) = rw e (
  _,
  refl,
  record { own = refl; others = λ x ne. ground (arith, ne); same_open = refl; same_remote = refl },
)
set_core_option-WasSet c o v (inr (inl e)) = rw e (
  _,
  refl,
  record { own = refl; others = λ x ne. ground (arith, ne); same_open = refl; same_remote = refl },
)
set_core_option-WasSet c o v (inr (inr (inl e))) = rw e (
  _,
  refl,
  record { own = refl; others = λ x ne. ground (arith, ne); same_open = refl; same_remote = refl },
)
set_core_option-WasSet c o v (inr (inr (inr e))) = rw e (
  _,
  refl,
  record { own = refl; others = λ x ne. ground (arith, ne); same_open = refl; same_remote = refl },
)

module _ {D : Type 0} (driver : Driver D) where
  abbrev pub after : Core → D → ℕ → ℕ → Core
  after c d o v = (set_option driver c d o v).1.0

  abbrev answer : D → ℕ → Option (Option ℕ) → Option ℕ
  answer d o r = elim r [ some v ↦ v | none ↦ device_get driver d o ]

  get_option-core :
      (c : Core) (d : D) (o : ℕ)
      → c.is_open ≡ true
      → c.f_remote ≡ false
      → get_option driver c d o ≡ answer d o (core_option c o)
  unfolding get_option
  get_option-core c d o up near = simp (get_option, up, near)

  -- On an open handle that is not remote, each of the four flags reads, once it was set, as 1 for a
  -- value that is not 0 and as 0 for 0. Options of another high DWORD read as before, whatever the
  -- device answers, and the device is not asked.
  pub get_option-set_option :
      (c : Core) (d : D) (o v : ℕ)
      → c.is_open ≡ true
      → c.f_remote ≡ false
      → IsFlag o
      → ((set_option driver c d o v).0 ≡ true)
        × ((set_option driver c d o v).1.1 ≡ d)
        × (get_option driver (after c d o v) d o ≡ some (one_if (not (v == 0))))
        × ((x : ℕ) → high x ≢ o → get_option driver (after c d o v) d x ≡ get_option driver c d x)
  unfolding set_option
  get_option-set_option c d o v up near flag =
      let (c', set, was) = set_core_option-WasSet c o v flag in
      let done : set_option driver c d o v ≡ (true, (c', d)) = simp (set_option, up, near, set) in
      let at : after c d o v ≡ c' = ap (λ t. t.1.0) done in
      let read : (x : ℕ) → get_option driver (after c d o v) d x ≡ answer d x (core_option c' x) =
        λ x.
          ap (λ k. get_option driver k d x) at
          ∙ get_option-core c' d x (was.same_open ∙ up) (was.same_remote ∙ near) in
      (
        ap (λ t. t.0) done,
        ap (λ t. t.1.1) done,
        read o ∙ ap (answer d o) was.own,
        λ x ne. read x ∙ ap (answer d x) (was.others x ne) ∙ sym (get_option-core c d x up near),
      )
