-- ===== src/Shell/Exec/Wiring/Ends.antt =====
-- Which ends of the pipes of a pipeline its processes hold.
use kenrel_learning.Common.{
  ℕ, zero, suc, ◌≤◌, ◌<◌, ◌≡◌, ◌≢◌, inl, inr, refl, ◌∙◌, ◌==◌, Option, none, some, arith,
  Bool-cases,
}
use kenrel_learning.Shell.Exec.Wiring.{
  End, read_end, write_end, Fds, copy_from, set_one, with_pipes, close_pipes, take_input,
}

-- The numbers of the pipes: all different, and not those of the standard streams.
pub record AreApart (rd wr : ℕ → ℕ) : Type 0 where
  pub rd_injective : (i j : ℕ) → rd i ≡ rd j → i ≡ j
  pub wr_injective : (i j : ℕ) → wr i ≡ wr j → i ≡ j
  pub ends : (i j : ℕ) → rd i ≢ wr j
  pub rd_high : (i : ℕ) → 2 < rd i
  pub wr_high : (i : ℕ) → 2 < wr i

-- A table with no end of a pipe at `g`, and a redirection to a descriptor that is no pipe's.
abbrev pub HasNoPipes : Fds → Type 0
HasNoPipes t = (g j : ℕ) → (t g ≢ some (write_end j)) × (t g ≢ some (read_end j))

abbrev pub Avoids : (ℕ → ℕ) → Option ℕ → Type 0
Avoids ends none = Unit
Avoids ends (some d) = (j : ℕ) → d ≢ ends j

-- The write ends that `t` holds are those of pipes from `low` to `high - 1`, at their own numbers.
abbrev pub WritesWithin : (ℕ → ℕ) → ℕ → ℕ → Fds → Type 0
WritesWithin wr low high t =
    (g j : ℕ) → t g ≡ some (write_end j) → (g ≡ wr j) × (low ≤ j) × (j < high)

module _ (rd wr : ℕ → ℕ) (apart : AreApart rd wr) where
  pub with_pipes-WritesWithin :
      (n : ℕ) (t : Fds) → HasNoPipes t → WritesWithin wr 0 n (with_pipes rd wr n t)
  unfolding with_pipes
  with_pipes-WritesWithin zero t h g j e = absurd ((h g j).0 e)
  with_pipes-WritesWithin (suc n) t h g j e =
      let ih = with_pipes-WritesWithin n t h g j in
      elim (Bool-cases (g == wr n)) [
        | inl y ↦ ground arith
        | inr y ↦ elim (Bool-cases (g == rd n)) [
          | inl z ↦ ground arith
          | inr z ↦ (let (a, b, c) = ih (rw (y, z) at e) in (a, b, omega arith))
        ]
      ]

  pub with_pipes-write :
      (n j : ℕ) (t : Fds) → j < n → with_pipes rd wr n t (wr j) ≡ some (write_end j)
  unfolding with_pipes
  with_pipes-write zero j t h = absurd (omega arith)
  with_pipes-write (suc n) j t h =
      ground (arith, apart.wr_injective j n, apart.ends n j, with_pipes-write n j t)

  pub with_pipes-read :
      (n j : ℕ) (t : Fds) → j < n → with_pipes rd wr n t (rd j) ≡ some (read_end j)
  unfolding with_pipes
  with_pipes-read zero j t h = absurd (omega arith)
  with_pipes-read (suc n) j t h =
      ground (arith, apart.rd_injective j n, apart.ends j n, with_pipes-read n j t)

  -- Other descriptors stay as they are.
  pub with_pipes-other :
      (n g : ℕ) (t : Fds)
      → ((j : ℕ) → g ≢ rd j)
      → ((j : ℕ) → g ≢ wr j)
      → with_pipes rd wr n t g ≡ t g
  unfolding with_pipes
  with_pipes-other zero g t a b = refl
  with_pipes-other (suc n) g t a b = ground (arith, a n, b n, with_pipes-other n g t a b)

  pub close_pipes-WritesWithin :
      (n high : ℕ) (t : Fds)
      → WritesWithin wr 0 high t
      → WritesWithin wr n high (close_pipes rd wr n t)
  unfolding close_pipes
  close_pipes-WritesWithin zero high t w g j e = w g j e
  close_pipes-WritesWithin (suc n) high t w g j e =
      let ih = close_pipes-WritesWithin n high t w g j in
      elim (Bool-cases (g == rd n)) [
        | inl y ↦ ground arith
        | inr y ↦ elim (Bool-cases (g == wr n)) [
          | inl z ↦ ground arith
          | inr z ↦
              let (a, b, c) = ih (rw (y, z) at e) in
              let ne : j ≢ n = λ q. (let a' = rw q at a in ground arith) in (a, omega arith, c)
        ]
      ]

  pub close_pipes-other :
      (n g : ℕ) (t : Fds)
      → ((j : ℕ) → j < n → g ≢ rd j)
      → ((j : ℕ) → j < n → g ≢ wr j)
      → close_pipes rd wr n t g ≡ t g
  unfolding close_pipes
  close_pipes-other zero g t a b = refl
  close_pipes-other (suc n) g t a b = ground (
    arith,
    a n (omega arith),
    b n (omega arith),
    close_pipes-other n g t (λ j l. a j (omega arith)) (λ j l. b j (omega arith)),
  )

  pub set_one-WritesWithin :
      (o : Option ℕ) (k low high : ℕ) (t : Fds)
      → Avoids wr o
      → WritesWithin wr low high t
      → WritesWithin wr low high (set_one o k t)
  set_one-WritesWithin none k low high t a w = w
  set_one-WritesWithin (some zero) k low high t a w = w
  set_one-WritesWithin (some (suc d)) k low high t a w = from_copy (t (suc d)) refl
    where
      from_copy : (o : Option End) → t (suc d) ≡ o → WritesWithin wr low high (copy_from o k t)
      from_copy none h g j e = w g j e
      from_copy (some x) h g j e = elim (Bool-cases (g == k)) [
        | inl y ↦ absurd (a j (w (suc d) j (h ∙ rw y at e)).0)
        | inr y ↦ w g j (rw y at e)
      ]

  pub set_one-other : (o : Option ℕ) (k g : ℕ) (t : Fds) → g ≢ k → set_one o k t g ≡ t g
  set_one-other none k g t n = refl
  set_one-other (some zero) k g t n = refl
  set_one-other (some (suc d)) k g t n = ground arith

  pub take_input-WritesWithin :
      (i high : ℕ) (t : Fds)
      → t (rd i) ≡ some (read_end i)
      → WritesWithin wr i high t
      → WritesWithin wr (suc i) high (take_input rd wr (suc i) t)
  take_input-WritesWithin i high t r w g j e = elim (Bool-cases (g == wr i)) [
    | inl y ↦ ground arith
    | inr y ↦ elim (Bool-cases (g == 0)) [
      | inl z ↦ ground (arith, r)
      | inr z ↦
          let (a, b, c) = w g j (rw (r, y, z) at e) in
          let ne : j ≢ i = λ q. (let a' = rw q at a in ground arith) in (a, omega arith, c)
    ]
  ]
