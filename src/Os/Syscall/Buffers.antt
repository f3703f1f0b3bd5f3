-- ===== src/Os/Syscall/Buffers.antt =====
-- The chunks of a `write` buffer, against the chunks of the operation core.
use systemscope.Base.{
  ℕ, zero, suc, ◌+◌, ◌≤◌, ◌<◌, ◌≡◌, refl, subst, some, List, [], ◌∷◌, arith, contains, ltb,
  Bool-cases, inl, inr,
}
use systemscope.Os.Core.{chunks, chunk_loop, chunk_end}
use systemscope.Os.Syscall.{Buffer, chunk, chunk_start_loop, is_chunk_start, buffer_new, page_count}

abbrev pub starts : List (ℕ × ℕ) → List ℕ
starts [] = []
starts ((addr, len) ∷ cs) = addr ∷ starts cs

-- Both end a chunk at the same address.
chunk_end-chunk :
    (b : Buffer) (at : ℕ)
    → at < b.n
    → chunk_end (b.buf + at) (b.buf + b.n) ≡ b.buf + (at + (chunk b at).1)
unfolding chunk
chunk_end-chunk b at h = ground arith

chunk_start_loop-contains :
    (fuel : ℕ) (b : Buffer) (at done : ℕ)
    → chunk_start_loop fuel b at done
      ≡ contains (b.buf + done) (starts (chunk_loop fuel (b.buf + at) (b.buf + b.n)))
unfolding chunk_start_loop chunk_loop
chunk_start_loop-contains zero b at done = refl
chunk_start_loop-contains (suc fuel) b at done = elim (Bool-cases (ltb at b.n)) [
  | inr n ↦ ground (arith, n)
  | inl t ↦
      let rest = chunk_start_loop-contains fuel b (at + (chunk b at).1) done in
      let same = chunk_end-chunk b at (ground (arith, t)) in rw (same, t) (ground (arith, t, rest))
]

-- A chunk of a `write` buffer starts exactly where `chunks` starts one in the buffer's range.
pub is_chunk_start-chunks :
    (b : Buffer) (done : ℕ)
    → is_chunk_start b done ≡ contains (b.buf + done) (starts (chunks b.buf b.n))
unfolding is_chunk_start chunks
is_chunk_start-chunks b done =
    subst
      (λ x.
        chunk_start_loop b.n b 0 done
        ≡ contains (b.buf + done) (starts (chunk_loop b.n x (b.buf + b.n))))
      (omega arith) (chunk_start_loop-contains b.n b 0 done)

-- A buffer that is accepted lies in one page or two, and its pages are the ones that it touches.
page_count_bounds :
    (sepc buf n : ℕ) (b : Buffer)
    → buffer_new sepc buf n ≡ some b
    → (1 ≤ page_count b) × (page_count b ≤ 2)
unfolding buffer_new page_count
page_count_bounds sepc buf n b h = (ground (arith, h), ground (arith, h))
