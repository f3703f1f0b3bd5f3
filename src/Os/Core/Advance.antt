-- ===== src/Os/Core/Advance.antt =====
-- How completions advance an operation.
use systemscope.Base.{ℕ, suc, ◌<◌, ◌≡◌, true, List, [], ◌⊎◌, length, some, none, ok}
use systemscope.Os.Core.{
  KernelConfig, Op, Access, Completion, Operation, steps, data_len, access, is_finished,
  data_len_of, access_of, answered, frame_chunks,
}

-- A state that a run reaches before its last access: what `from_parts` accepts.
pub record IsOperation (c : KernelConfig) (o : Operation) : Type 0 where
  pub before_end : o.step < steps o c
  pub size : length o.working ≡ data_len o c

-- A completion of the kind of the access, with as many bytes as it asked for.
abbrev pub Answers : Access → Completion → Type 0
Answers (Access.read addr len) (Completion.bytes_read bytes) = length bytes ≡ len
Answers (Access.write addr bytes) Completion.written = Unit
Answers (Access.read addr len) Completion.written = ⊥
Answers (Access.write addr bytes) (Completion.bytes_read l) = ⊥

module _ (c : KernelConfig) where
  abbrev count : ℕ
  count = length (frame_chunks c)

  -- The access that is due, and the working data once it is answered: as many bytes as the next
  -- step requires, unless that requires none.
  record IsDue (op : Op) (step : ℕ) (working : List ℕ) (a : Access) : Type 0 where
    now : access_of op c step working ≡ some a
    later :
        (k : Completion) (w : List ℕ)
        → answered a k working ≡ ok w
        → length working ≡ data_len_of op c step
        → (length w ≡ data_len_of op c (suc step)) ⊎ (data_len_of op c (suc step) ≡ 0)

-- Every access of the operation has completed, and no working data is left.
pub record IsOver (c : KernelConfig) (o : Operation) : Type 0 where
  pub finished : is_finished o c ≡ true
  pub none_left : o.working ≡ []
  pub no_access : access o c ≡ none
