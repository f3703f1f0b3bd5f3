-- ===== src/Os/Process/Contexts.antt =====
-- components/os/src/process.rs: a context in the trap frame.
use systemscope.Base.{
  ℕ, zero, suc, ◌+◌, ◌*◌, ◌^◌, ◌<◌, ◌≡◌, refl, ap, ◌∙◌, subst, Option, none, some, List, [], ◌∷◌,
  ◌++◌, arith, All, drop, length, get_elem?, set, replicate,
}
use systemscope.Os.Core.{le_bytes}
use systemscope.Os.Process.{Context}

-- `Context::initial`: `sp` is at index 1.
unfoldable pub context_initial : ℕ → ℕ → Context
context_initial entry stack_top = record {
  regs = set (replicate 31 0) 1 stack_top;
  pc = entry;
  sstatus = 0;
}

abbrev pub bytes_of : List ℕ → List ℕ
bytes_of [] = []
bytes_of (w ∷ ws) = le_bytes w ++ bytes_of ws

-- `Context::to_frame`.
unfoldable pub to_frame : Context → List ℕ
to_frame c = bytes_of (c.regs ++ c.pc ∷ c.sstatus ∷ [])

abbrev pub first_word : List ℕ → Option ℕ
first_word (b0 ∷ b1 ∷ b2 ∷ b3 ∷ l) = some (b0 + b1 * 2 ^ 8 + b2 * 2 ^ 16 + b3 * 2 ^ 24)
first_word l = none

-- `word(i)`; `none` is a panic, for a frame that is too short.
abbrev pub frame_word : List ℕ → ℕ → Option ℕ
frame_word frame i = first_word (drop (4 * i) frame)

-- `from_fn(word)`: the words from index `i` on.
pub frame_words : List ℕ → ℕ → ℕ → Option (List ℕ)
frame_words frame i zero = some []
frame_words frame i (suc n) = elim (frame_word frame i) [
  | none ↦ none
  | some w ↦ elim (frame_words frame (suc i) n) [ none ↦ none | some ws ↦ some (w ∷ ws) ]
]

abbrev pub context_of : Option (List ℕ) → Option ℕ → Option ℕ → Option Context
context_of (some regs) (some pc) (some sstatus) =
    some (record { regs = regs; pc = pc; sstatus = sstatus })
context_of regs pc sstatus = none

-- `Context::from_frame`.
unfoldable pub from_frame : List ℕ → Option Context
unfolding frame_words
from_frame frame = context_of (frame_words frame 0 31) (frame_word frame 31) (frame_word frame 32)

abbrev pub IsWord : ℕ → Type 0
IsWord w = w < 2 ^ 32

frame_word-bytes_of :
    (ws rest : List ℕ) (i : ℕ) {w : ℕ}
    → All IsWord ws
    → get_elem? ws i ≡ some w
    → frame_word (bytes_of ws ++ rest) i ≡ some w
frame_word-bytes_of [] rest i h e = absurd (ground (arith, e))
frame_word-bytes_of (v ∷ ws) rest zero (l, h) e = ground (arith, e, l)
frame_word-bytes_of (v ∷ ws) rest (suc i) (l, h) e =
    let four : 4 * suc i ≡ suc (suc (suc (suc (4 * i)))) = omega arith in
    rw four (frame_word-bytes_of ws rest i h e)

-- The words from the index `i` on are the list `vs` that stands there.
frame_words-bytes_of :
    (ws rest vs : List ℕ) (i : ℕ)
    → All IsWord ws
    → ((j : ℕ) → j < length vs → get_elem? ws (i + j) ≡ get_elem? vs j)
    → frame_words (bytes_of ws ++ rest) i (length vs) ≡ some vs
unfolding frame_words
frame_words-bytes_of ws rest [] i h e = refl
frame_words-bytes_of ws rest (v ∷ vs) i h e =
    let here =
      frame_word-bytes_of ws rest i h
        (ap (get_elem? ws) (let z : i ≡ i + 0 = omega arith in z) ∙ e 0 (omega arith)) in
    let later = frame_words-bytes_of ws rest vs (suc i) h (λ j l.
      ap (get_elem? ws) (let z : suc i + j ≡ i + suc j = omega arith in z)
      ∙ e (suc j) (omega (arith, l))) in
    ground (arith, here, later)

get_elem?-front : (xs ys : List ℕ) (j : ℕ) → j < length xs → get_elem? (xs ++ ys) j ≡ get_elem? xs j
get_elem?-front [] ys j h = absurd (omega (arith, h))
get_elem?-front (x ∷ xs) ys zero h = refl
get_elem?-front (x ∷ xs) ys (suc j) h = get_elem?-front xs ys j (omega (arith, h))

get_elem?-back :
    (xs ys : List ℕ) (j n : ℕ) → length xs + j ≡ n → get_elem? (xs ++ ys) n ≡ get_elem? ys j
get_elem?-back [] ys j n h = ap (get_elem? ys) (let z : n ≡ j = omega (arith, h) in z)
get_elem?-back (x ∷ xs) ys j zero h = absurd (omega (arith, h))
get_elem?-back (x ∷ xs) ys j (suc n) h = get_elem?-back xs ys j n (omega (arith, h))

All-join : (xs ys : List ℕ) → All IsWord xs → All IsWord ys → All IsWord (xs ++ ys)
All-join [] ys h k = k
All-join (x ∷ xs) ys (l, h) k = (l, All-join xs ys h k)

-- A context of 31 registers that are words, with `pc` and `sstatus` words, is read back from a
-- trap frame that starts with what `to_frame` lays out, whatever follows.
pub from_frame-to_frame :
    (c : Context) (rest : List ℕ)
    → length c.regs ≡ 31
    → All IsWord c.regs
    → IsWord c.pc
    → IsWord c.sstatus
    → from_frame (to_frame c ++ rest) ≡ some c
unfolding from_frame to_frame
from_frame-to_frame c rest n h p s =
    let ws = c.regs ++ c.pc ∷ c.sstatus ∷ [] in
    let words = All-join c.regs (c.pc ∷ c.sstatus ∷ []) h (p, (s, tt)) in
    let regs = frame_words-bytes_of ws rest c.regs 0 words (λ j l.
      ap (get_elem? ws) (let z : 0 + j ≡ j = omega arith in z)
      ∙ get_elem?-front c.regs (c.pc ∷ c.sstatus ∷ []) j l) in
    let pc =
      frame_word-bytes_of ws rest 31 words
        (get_elem?-back c.regs (c.pc ∷ c.sstatus ∷ []) 0 31 (omega (arith, n))) in
    let status =
      frame_word-bytes_of ws rest 32 words
        (get_elem?-back c.regs (c.pc ∷ c.sstatus ∷ []) 1 32 (omega (arith, n))) in
    rw (subst (λ k. frame_words (bytes_of ws ++ rest) 0 k ≡ some c.regs) n regs, pc, status) refl
