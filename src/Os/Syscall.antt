-- ===== src/Os/Syscall.antt =====
-- components/os/src/syscall.rs: the system call numbers, the buffer of a `write`, and the kernel's
-- own walk of the page tables for it. The flags of an entry are those of pte.rs.
mod Examples
pub mod Walking
pub mod Buffers
use systemscope.Base.{
  ℕ, zero, suc, ◌+◌, ◌-◌, ◌*◌, ◌/◌, ◌%◌, ◌^◌, Bool, true, false, not, ◌&&◌, ◌||◌, Option, none,
  some, bit_and, bit_or, ltb, leb, ◌==◌, ◌!=◌, if◌then◌else◌,
}
use systemscope.Base.Word.{◌>>◌, ◌-%◌, has, complement}
use systemscope.Rv32i.Sv32.{pte_v, pte_r, pte_w, pte_x, pte_u, pte_a, pte_d}

abbrev pub page : ℕ
page = 4096

abbrev pub write_max : ℕ
write_max = 4096

pub data Syscall : Type 0 where
  write exit exit_group sched_yield get_pid : Syscall
  unsupported : (nr : ℕ) → Syscall

-- `Syscall::decode`.
unfoldable pub decode_syscall : ℕ → Syscall
decode_syscall nr =
    if nr == 64
    then Syscall.write
    else if nr == 93
    then Syscall.exit
    else if nr == 94
    then Syscall.exit_group
    else if nr == 124
    then Syscall.sched_yield
    else if nr == 172
    then Syscall.get_pid
    else Syscall.unsupported nr

pub record Buffer : Type 0 where
  pub sepc : ℕ
  pub buf : ℕ
  pub n : ℕ

unfoldable pub buffer_new : ℕ → ℕ → ℕ → Option Buffer
buffer_new sepc buf n =
    if leb 1 n && leb n write_max && leb (buf + n) (2 ^ 32)
    then some (record { sepc = sepc; buf = buf; n = n })
    else none

-- `Buffer::pages`.
unfoldable pub page_count : Buffer → ℕ
page_count b = (b.buf + b.n - 1) / page - b.buf / page + 1

unfoldable pub page_va : Buffer → ℕ → ℕ
page_va b i = bit_and b.buf (complement 0xFFF) + i * page

abbrev pub min_of : ℕ → ℕ → ℕ
min_of a b = if ltb b a then b else a

-- `Buffer::chunk`.
unfoldable pub chunk : Buffer → ℕ → ℕ × ℕ
chunk b done = let va = b.buf + done in (va, min_of (min_of (b.n - done) 16) (page - va % page))

-- The loop of `is_chunk_start`, with fuel: a round takes a byte at least, so `n` is enough.
unfoldable pub chunk_start_loop : ℕ → Buffer → ℕ → ℕ → Bool
chunk_start_loop zero b at done = false
chunk_start_loop (suc fuel) b at done =
    let rest = chunk_start_loop fuel b (at + (chunk b at).1) done in
    if not (ltb at b.n) then false else if at == done then true else rest

unfoldable pub is_chunk_start : Buffer → ℕ → Bool
unfolding chunk_start_loop
is_chunk_start b done = chunk_start_loop b.n b 0 done

pub data WalkStep : Type 0 where
  next : (table : ℕ) → WalkStep
  page_at : (ppn : ℕ) → WalkStep
  fault : WalkStep

unfoldable pub pte_address : ℕ → ℕ → ℕ → ℕ
pte_address table va level =
    table * page + 4 * (if level == 1 then va >> 22 else bit_and (va >> 12) 0x3FF)

unfoldable pub walk_step : ℕ → ℕ → ℕ → WalkStep
walk_step pte level va =
    let ppn = pte >> 10 in
    if not (has pte pte_v) || (not (has pte pte_r) && has pte pte_w)
    then WalkStep.fault
    else if not (has pte (bit_or pte_r pte_x))
    then (if level == 1 && not (has pte (bit_or (bit_or pte_d pte_a) pte_u))
        then WalkStep.next ppn
        else WalkStep.fault)
    else if not (has pte pte_u) || not (has pte pte_r) || not (has pte pte_a)
    then WalkStep.fault
    else if level == 1
    then (if bit_and ppn 0x3FF != 0
        then WalkStep.fault
        else WalkStep.page_at (bit_or ppn (bit_and (va >> 12) 0x3FF)))
    else WalkStep.page_at ppn

-- One round of the loop of `translate`, where a pointer leads to `descend`.
abbrev pub after_walk : WalkStep → ℕ → (ℕ → Option ℕ) → Option ℕ
after_walk (WalkStep.next table) va descend = descend table
after_walk (WalkStep.page_at ppn) va descend = some (ppn * page + bit_and va 0xFFF)
after_walk WalkStep.fault va descend = none

-- `translate`: the two rounds, where a pointer at level 0 ends the loop with `None`.
unfoldable pub translate : (ℕ → ℕ) → ℕ → ℕ → Option ℕ
unfolding pte_address walk_step
translate read_pte root va =
    after_walk (walk_step (read_pte (pte_address root va 1)) 1 va) va
      λ table. after_walk (walk_step (read_pte (pte_address table va 0)) 0 va) va (λ _. none)
