-- ===== src/Resolve/Rotation.antt =====
-- internal/resolve/pool.go: which socket `pick` and `pickOther` give, while the counter is an int.
use native.Mathlib.Nat.{mod-lt, mod-eq_of_lt, mod_self, zero-add, mod-add-mod}
use www_scanner.Prelude.{
  ℕ, zero, suc, ◌+◌, ◌*◌, ◌-◌, ◌%◌, ◌≤◌, ◌<◌, ◌≡◌, ◌≢◌, refl, sym, ap, ◌∙◌, inl, inr, List, [], ◌∷◌,
  some, false, length, get_elem?, Text, eq_text, eq_text_iff, dec_lt, Bool-cases, arith,
}
use www_scanner.Resolve.Pool.{int_bound, uint64_bound, index, pick, pick_other_in, pick_other}

get_elem?-some :
    (conns : List Text) (i : ℕ) → i < length conns → (s : Text) × (get_elem? conns i ≡ some s)
get_elem?-some [] i h = absurd (omega arith)
get_elem?-some (c ∷ conns) zero h = (c, refl)
get_elem?-some (c ∷ conns) (suc i) h = get_elem?-some conns i (omega arith)

-- every position comes up once in a round
mod-cover : (n len i : ℕ) → i < len → (j : ℕ) × (j < len) × ((n + j) % len ≡ i)
mod-cover n len i h = elim (dec_lt i (n % len)) [
  | no above ↦ (
    i - n % len,
    omega arith,
    sym (mod-add-mod n len (i - n % len)) ∙ ap (λ k. k % len) (omega arith) ∙ mod-eq_of_lt h,
  )
  | yes below ↦
      let m = mod-lt n {m = len} (omega arith) in
      let sum : n % len + (i + len - n % len) ≡ len + i = omega arith in
      (
        i + len - n % len,
        omega arith,
        sym (mod-add-mod n len (i + len - n % len))
            ∙ ap (λ k. k % len) sum
            ∙ sym (mod-add-mod len len i)
            ∙ ap (λ k. (k + i) % len) (mod_self len)
            ∙ ap (λ k. k % len) (zero-add i)
            ∙ mod-eq_of_lt h,
      )
]

index_lem : (n len : ℕ) → 0 < len → n < int_bound → index n len ≡ some (n % len)
unfolding index
index_lem n len l h = ground arith

get_elem?-lt :
    (conns : List Text) (i : ℕ) (s : Text) → get_elem? conns i ≡ some s → i < length conns
get_elem?-lt [] i s h = absurd (cc)
get_elem?-lt (c ∷ conns) zero s h = omega arith
get_elem?-lt (c ∷ conns) (suc i) s h = omega (arith, get_elem?-lt conns i s h)

some-injective : {a b : Text} → some a ≡ some b → a ≡ b
some-injective e = cc

-- `pick` gives the socket after the counter and the draws of others.
pub pick_lem :
    (others : ℕ → ℕ) (conns : List Text) (next : ℕ)
    → 0 < length conns
    → next + others next + 1 < int_bound
    → (s : Text) × (get_elem? conns ((next + others next + 1) % length conns) ≡ some s)
      × (pick others conns next ≡ some (s, next + others next + 1))
unfolding pick
pick_lem others conns next nonempty h =
    let m = next + others next + 1 in
    let (s, e) = get_elem?-some conns (m % length conns) (mod-lt m nonempty) in
    let w : m % uint64_bound ≡ m = mod-eq_of_lt (omega arith) in
    (s, e, rw (w, index_lem m (length conns) nonempty h, e, pick) (ap (λ n. some (s, n)) w))

module _ (others : ℕ → ℕ) (conns : List Text) (nonempty : 0 < length conns) where
  pick_other_in-some :
      (busy rounds next : ℕ) (avoid : Text)
      → ((n : ℕ) → others n ≤ busy)
      → next + (rounds + 1) * (busy + 1) < int_bound
      → (s : Text) × (n : ℕ) × (n ≤ next + (rounds + 1) * (busy + 1))
        × (pick_other_in others rounds conns avoid next ≡ some (s, n))
  unfolding pick_other_in
  pick_other_in-some busy zero next avoid few h =
      let (s, _, e) = pick_lem others conns next nonempty (omega (arith, few next)) in
      (s, next + others next + 1, omega (arith, few next), e)
  pick_other_in-some busy (suc rounds) next avoid few h =
      let here = few next in
      let n₁ = next + others next + 1 in
      let more : 0 ≤ rounds * (busy + 1) = omega arith in
      let (s, _, e) = pick_lem others conns next nonempty (omega (arith, here, more)) in
      let (t, n, b, f) = pick_other_in-some busy rounds n₁ avoid few (omega (arith, here)) in
      elim (Bool-cases (eq_text s avoid)) [
        | inl same ↦ (t, n, omega (arith, here, b), rw (e, same, pick_other_in) f)
        | inr other ↦ (s, n₁, omega (arith, here, more), rw (e, other, pick_other_in) refl)
      ]

  -- `pickOther` draws at most one number more than there are sockets, with at most so many draws of others before each.
  pub pick_other-some :
      (busy next : ℕ) (avoid : Text)
      → ((n : ℕ) → others n ≤ busy)
      → next + (length conns + 1) * (busy + 1) < int_bound
      → (s : Text) × (n : ℕ) × (n ≤ next + (length conns + 1) * (busy + 1))
        × (pick_other others conns avoid next ≡ some (s, n))
  unfolding pick_other
  pick_other-some busy next avoid few h = pick_other_in-some busy (length conns) next avoid few h

  pick_other_in-avoids :
      (rounds next j : ℕ) (avoid other : Text)
      → ((n : ℕ) → others n ≡ 0)
      → next + rounds + 1 < int_bound
      → j < rounds
      → get_elem? conns ((next + 1 + j) % length conns) ≡ some other
      → other ≢ avoid
      → (s : Text) × (n : ℕ) × (pick_other_in others rounds conns avoid next ≡ some (s, n))
        × (s ≢ avoid)
  unfolding pick_other_in
  pick_other_in-avoids zero next j avoid other quiet h b g ne = absurd (omega arith)
  pick_other_in-avoids (suc rounds) next zero avoid other quiet h b g ne =
      let none_between = quiet next in
      let (s, at_s, e) = pick_lem others conns next nonempty (omega (arith, none_between)) in
      let s_other : s ≡ other =
        (let same : next + 1 + 0 ≡ next + others next + 1 = omega (arith, none_between) in
          some-injective (sym at_s ∙ rw (← same) g)) in
      let differs : eq_text s avoid ≡ false = ground (arith, eq_text_iff s avoid) in
      (
        s,
        next + others next + 1,
        rw (e, differs, pick_other_in) refl,
        λ same. ne (sym s_other ∙ same),
      )
  pick_other_in-avoids (suc rounds) next (suc j) avoid other quiet h b g ne =
      let none_between = quiet next in
      let n₁ = next + others next + 1 in
      let shift : n₁ + 1 + j ≡ next + 1 + suc j = omega (arith, none_between) in
      let (s, at_s, e) = pick_lem others conns next nonempty (omega (arith, none_between)) in
      let (t, n, f, t_ne) =
        pick_other_in-avoids rounds n₁ j avoid other quiet (omega (arith, none_between))
          (omega arith) (rw shift g) ne in
      elim (Bool-cases (eq_text s avoid)) [
        | inr differs ↦ (
          s,
          n₁,
          rw (e, differs, pick_other_in) refl,
          λ same. ground (arith, eq_text_iff s avoid),
        )
        | inl same ↦ (t, n, rw (e, same, pick_other_in) f, t_ne)
      ]

  -- If no other call draws from the counter between its own draws, and the counter is below the largest int by more than
  -- the number of sockets, `pickOther` gives a socket of another server than the one to avoid, if the pool has one.
  pub pick_other_lem :
      (next i : ℕ) (avoid other : Text)
      → ((n : ℕ) → others n ≡ 0)
      → next + length conns + 1 < int_bound
      → get_elem? conns i ≡ some other
      → other ≢ avoid
      → (s : Text) × (n : ℕ) × (pick_other others conns avoid next ≡ some (s, n)) × (s ≢ avoid)
  unfolding pick_other
  pick_other_lem next i avoid other quiet h g ne =
      let (j, b, e) = mod-cover (next + 1) (length conns) i (get_elem?-lt conns i other g) in
      pick_other_in-avoids (length conns) next j avoid other quiet h b (rw e g) ne
