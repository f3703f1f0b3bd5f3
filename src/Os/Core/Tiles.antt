-- ===== src/Os/Core/Tiles.antt =====
-- The chunks of a range.
use systemscope.Base.{
  ℕ, zero, suc, ◌+◌, ◌-◌, ◌/◌, ◌≤◌, ◌<◌, ◌≡◌, refl, ap, ◌∙◌, subst, List, [], ◌∷◌, arith, ltb,
  Bool-cases, inl, inr, length, take, get_elem?, some,
}
use systemscope.Os.Core.{chunk_loop, chunks, chunk_end, sum_lens}

-- Ranges in a row from `first` to `last`: each of 1 to 16 bytes and within a page.
abbrev pub IsTiling : ℕ → ℕ → List (ℕ × ℕ) → Type 0
IsTiling first last [] = first ≡ last
IsTiling first last ((at, len) ∷ cs) =
    (at ≡ first)
    × (0 < len)
    × (len ≤ 16)
    × (at / 4096 ≡ (at + len - 1) / 4096)
    × IsTiling (at + len) last cs

chunk_end_bounds :
    (at last : ℕ)
    → at < last
    → (at < chunk_end at last)
      × (chunk_end at last ≤ last)
      × (chunk_end at last ≤ at + 16)
      × (at / 4096 ≡ (chunk_end at last - 1) / 4096)
chunk_end_bounds at last h = (ground arith, ground arith, ground arith, ground arith)

chunk_loop-IsTiling :
    (fuel at last : ℕ) → at ≤ last → last ≤ at + fuel → IsTiling at last (chunk_loop fuel at last)
unfolding chunk_loop
chunk_loop-IsTiling zero at last h k = omega arith
chunk_loop-IsTiling (suc fuel) at last h k = elim (Bool-cases (ltb at last)) [
  | inr n ↦ rw n (ground (arith, n))
  | inl t ↦
      let (a, b, c, d) = chunk_end_bounds at last (ground (arith, t)) in
      let rest = chunk_loop-IsTiling fuel (chunk_end at last) last b (omega (arith, a)) in
      let sum : chunk_end at last ≡ at + (chunk_end at last - at) = omega (arith, a) in
      rw t (
        refl,
        omega (arith, a),
        omega (arith, c),
        d ∙ ap (λ (x : ℕ). (x - 1) / 4096) sum,
        subst (λ x. IsTiling x last (chunk_loop fuel (chunk_end at last) last)) sum rest,
      )
]

-- `chunks` splits a range into ranges in a row, each of 1 to 16 bytes and within a page.
pub chunks-IsTiling : (base len : ℕ) → IsTiling base (base + len) (chunks base len)
unfolding chunks
chunks-IsTiling base len = chunk_loop-IsTiling len base (base + len) (omega arith) (omega arith)

pub IsTiling-sum :
    (first last : ℕ) (cs : List (ℕ × ℕ)) → IsTiling first last cs → first + sum_lens cs ≡ last
IsTiling-sum first last [] t = omega (arith, t)
IsTiling-sum first last ((at, len) ∷ cs) (e, p, q, r, t) =
    omega (arith, e, IsTiling-sum (at + len) last cs t)

-- The chunk at a step, and the bytes before the step after it.
pub at_step :
    (cs : List (ℕ × ℕ)) (step : ℕ)
    → step < length cs
    → (addr len : ℕ) × (get_elem? cs step ≡ some (addr, len))
      × (sum_lens (take (suc step) cs) ≡ sum_lens (take step cs) + len)
at_step [] step h = absurd (omega (arith, h))
at_step ((addr, len) ∷ cs) zero h = (addr, len, refl, omega arith)
at_step ((addr, len) ∷ cs) (suc step) h =
    let (a, l, e, f) = at_step cs step (omega (arith, h)) in (a, l, e, omega (arith, f))

pub take_all : (cs : List (ℕ × ℕ)) → take (length cs) cs ≡ cs
take_all [] = refl
take_all (c ∷ cs) = ap (λ t. c ∷ t) (take_all cs)
