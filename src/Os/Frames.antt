-- ===== src/Os/Frames.antt =====
-- components/os/src/frames.rs: the frame allocator.
pub mod Sets
pub mod Laws
pub mod Release
pub mod Owned
use systemscope.Base.{
  ℕ, suc, ◌+◌, ◌-◌, ◌/◌, ◌%◌, ◌^◌, Bool, true, false, Option, none, some, Result, ok, err, List, [],
  ◌∷◌, map, bit_and, bit_or, ltb, ◌==◌, ◌!=◌, ◌||◌, if◌then◌else◌, length, get_or, get_elem?, set,
  take, replicate,
}
use systemscope.Base.Word.{◌>>◌}

abbrev pub page : ℕ
page = 4096

pub data FrameError : Type 0 where
  outside_pool : (ppn : ℕ) → FrameError
  not_owned : (ppn : ℕ) → FrameError

pub record Frames : Type 0 where
  pub base : ℕ
  pub owners : List ℕ

-- `Frames::new`.
unfoldable pub frames_new : ℕ → ℕ → Frames
frames_new base size = record { base = base / page % 2 ^ 32; owners = replicate (size / page) 0 }

-- The owners that are 0, counted.
pub count_free : List ℕ → ℕ
count_free [] = 0
count_free (o ∷ os) = let rest = count_free os in if o == 0 then suc rest else rest

unfoldable pub free_count : Frames → ℕ
unfolding count_free
free_count f = count_free f.owners

unfoldable pub index : Frames → ℕ → Option ℕ
index f ppn =
    if ltb ppn f.base
    then none
    else if ltb (ppn - f.base) (length f.owners)
    then some (ppn - f.base)
    else none

unfoldable pub owner : Frames → ℕ → Option ℕ
unfolding index
owner f ppn = elim (index f ppn) [ none ↦ none | some i ↦ some (get_or f.owners i 0) ]

-- The test `owner == Some(o)`.
abbrev pub owner_is : Option ℕ → ℕ → Bool
owner_is none o = false
owner_is (some x) o = x == o

-- `(base..).zip(owners)`, filtered by the owner.
pub owned_from : ℕ → ℕ → List ℕ → List ℕ
owned_from pid ppn [] = []
owned_from pid ppn (o ∷ os) =
    let rest = owned_from pid (suc ppn) os in if o == pid then ppn ∷ rest else rest

unfoldable pub owned_by : Frames → ℕ → List ℕ
unfolding owned_from
owned_by f pid = owned_from pid f.base f.owners

-- The indices of the owners that are 0, ascending, from index `i` on.
pub free_indices : ℕ → List ℕ → List ℕ
free_indices i [] = []
free_indices i (o ∷ os) = let rest = free_indices (suc i) os in if o == 0 then i ∷ rest else rest

-- `for i in is { owners[i] = pid }`.
pub set_all : List ℕ → List ℕ → ℕ → List ℕ
set_all os [] pid = os
set_all os (i ∷ is) pid = set_all (set os i pid) is pid

-- `Frames::reserve`: the outer `none` is the failed assertion on `pid`.
unfoldable pub reserve : Frames → ℕ → ℕ → Option (Option (List ℕ × Frames))
unfolding free_indices set_all
reserve f pid n =
    let free = take n (free_indices 0 f.owners) in
    if pid == 0
    then none
    else if ltb (length free) n
    then some none
    else some (
        some (map (λ i. f.base + i % 2 ^ 32) free, record f { owners = set_all f.owners free pid }))

-- The first loop of `release`: the first frame that `pid` may not free.
pub check_release : Frames → ℕ → List ℕ → Option FrameError
unfolding owner
check_release f pid [] = none
check_release f pid (ppn ∷ ppns) =
    let rest = check_release f pid ppns in
    elim (owner f ppn) [
      | none ↦ some (FrameError.outside_pool ppn)
      | some o ↦ if o != pid || pid == 0 then some (FrameError.not_owned ppn) else rest
    ]

-- The second loop of `release`. `none` is the failed `expect`.
pub clear_all : Frames → List ℕ → Option Frames
unfolding index
clear_all f [] = some f
clear_all f (ppn ∷ ppns) = elim (index f ppn) [
  | none ↦ none
  | some i ↦ clear_all (record f { owners = set f.owners i 0 }) ppns
]

-- `Frames::release`: `none` is the failed `expect`.
unfoldable pub release : Frames → ℕ → List ℕ → Option (Result Frames FrameError)
unfolding check_release clear_all
release f pid ppns = elim (check_release f pid ppns) [
  | some e ↦ some (err e)
  | none ↦ elim (clear_all f ppns) [ none ↦ none | some f' ↦ some (ok f') ]
]

-- The loop of `bitmap` from index `i` on.
pub set_bits : ℕ → List ℕ → List ℕ → List ℕ
set_bits i [] bits = bits
set_bits i (o ∷ os) bits =
    set_bits (suc i) os
      (if o != 0 then set bits (i / 8) (bit_or (get_or bits (i / 8) 0) (2 ^ (i % 8))) else bits)

unfoldable pub bitmap : Frames → List ℕ
unfolding set_bits
bitmap f = set_bits 0 f.owners (replicate ((length f.owners + 7) / 8) 0)

-- `Frames::bit`.
unfoldable pub bit : List ℕ → ℕ → Bool
bit bits i = elim (get_elem? bits (i / 8)) [ none ↦ false | some b ↦ bit_and (b >> (i % 8)) 1 == 1 ]
