-- ===== src/Rv32i/Sv32/Steps.antt =====
-- One step of the walk, on the digits of the entry.
use systemscope.Base.{
  ℕ, ◌+◌, ◌*◌, ◌/◌, ◌%◌, ◌^◌, ◌≡◌, ◌≢◌, refl, sym, ap, ◌∙◌, Bool, true, false, arith, bit_and, not,
  ◌&&◌, ◌||◌, if◌then◌else◌, ◌↔◌,
}
use systemscope.Base.Bits.{bit_and_mask, bit_and_digit, bit_or_fields, bit_and_add}
use systemscope.Base.Word.{◌>>◌, has, digit}
use systemscope.Rv32i.Privilege.{Privilege}
use systemscope.Rv32i.Sv32.{
  Access, Context, Step, step, pte_address, leaf_address, user_ok, allowed, dirty_ok, pte_v, pte_r,
  pte_w, pte_x, pte_a,
}
use systemscope.Rv32i.Sv32.Pages.{Permits, IsPointer, ModeMay, AccessMay, entry_at}

-- A test of one flag reads its digit.
pub flags :
    (p : ℕ)
    → (bit_and p 1 ≡ digit 0 p)
      × (bit_and p 2 ≡ digit 1 p * 2)
      × (bit_and p 4 ≡ digit 2 p * 4)
      × (bit_and p 8 ≡ digit 3 p * 8)
      × (bit_and p 16 ≡ digit 4 p * 16)
      × (bit_and p 64 ≡ digit 6 p * 64)
      × (bit_and p 128 ≡ digit 7 p * 128)
      × (bit_and p 208 ≡ digit 7 p * 128 + digit 6 p * 64 + digit 4 p * 16)
flags p = (
  omega (arith, bit_and_digit 0 p),
  bit_and_digit 1 p,
  bit_and_digit 2 p,
  bit_and_digit 3 p,
  bit_and_digit 4 p,
  bit_and_digit 6 p,
  bit_and_digit 7 p,
  omega (
    arith,
    bit_and_digit 4 p,
    bit_and_digit 6 p,
    bit_and_digit 7 p,
    bit_and_add p 128 80 refl,
    bit_and_add p 64 16 refl,
  ),
)

pub leaf_address-one : (va pte : ℕ) → leaf_address va 1 pte ≡ pte / 2 ^ 20 * 2 ^ 22 + va % 2 ^ 22
leaf_address-one va pte =
    rw (bit_and_mask 22 va) (bit_or_fields 22 (pte / 2 ^ 20) (va % 2 ^ 22) (omega arith))

pub leaf_address-zero : (va pte : ℕ) → leaf_address va 0 pte ≡ pte / 2 ^ 10 * 2 ^ 12 + va % 2 ^ 12
leaf_address-zero va pte =
    rw (bit_and_mask 12 va) (bit_or_fields 12 (pte / 2 ^ 10) (va % 2 ^ 12) (omega arith))

pub pte_address-entry : (table va level : ℕ) → pte_address table va level ≡ entry_at table va level
unfolding pte_address
pte_address-entry table va level = omega (arith, bit_and_mask 10 (va / 2 ^ (12 + 10 * level)))

-- The tests of `step`.
abbrev invalid : ℕ → Bool
invalid pte = not (has pte pte_v) || (not (has pte pte_r) && has pte pte_w)

abbrev no_leaf : ℕ → Bool
no_leaf pte = not (has pte pte_r) && not (has pte pte_x)

abbrev refused : Context → ℕ → Bool
refused ctx pte =
    not (user_ok ctx.privilege ctx pte)
    || not (allowed ctx.access ctx pte)
    || not (has pte pte_a)
    || not (dirty_ok ctx pte)

four :
    (a b c d : Bool)
    → (not a || not b || not c || not d) ≡ false
    → (a ≡ true) × (b ≡ true) × (c ≡ true) × (d ≡ true)
four a b c d h = (ground arith, ground arith, ground arith, ground arith)

all_four :
    (a b c d : Bool)
    → a ≡ true
    → b ≡ true
    → c ≡ true
    → d ≡ true
    → (not a || not b || not c || not d) ≡ false
all_four a b c d h i j k = ground arith

-- A step that gives an address has passed the tests.
past :
    (b : Bool) {s : Step} {pa : ℕ}
    → (if b then Step.page_fault else s) ≡ Step.leaf pa
    → (b ≡ false) × (s ≡ Step.leaf pa)
past true e = cc
past false e = (refl, e)

past_pointer :
    (b c : Bool) (t : ℕ) {s : Step} {pa : ℕ}
    → (if b then (if c then Step.page_fault else Step.next t) else s) ≡ Step.leaf pa
    → (b ≡ false) × (s ≡ Step.leaf pa)
past_pointer true true t e = cc
past_pointer true false t e = cc
past_pointer false c t e = (refl, e)

module _ (sum mxr : Bool) (pte : ℕ) where
  abbrev at : Privilege → Access → Context
  at p a = record { privilege = p; sum = sum; mxr = mxr; access = a }

  may_mode : (p : Privilege) (a : Access) → user_ok p (at p a) pte ≡ true → ModeMay p (at p a) pte
  may_mode Privilege.user a e = ground (arith, flags pte)
  may_mode Privilege.supervisor Access.fetch e = ground (arith, flags pte)
  may_mode Privilege.supervisor Access.load e = ground (arith, flags pte)
  may_mode Privilege.supervisor Access.store e = ground (arith, flags pte)
  may_mode Privilege.machine a e = tt

  may_access :
      (p : Privilege) (a : Access)
      → allowed a (at p a) pte ≡ true
      → dirty_ok (at p a) pte ≡ true
      → AccessMay a (at p a) pte
  may_access p Access.fetch e d = ground (arith, flags pte)
  may_access p Access.load e d = ground (arith, flags pte)
  may_access p Access.store e d = (ground (arith, flags pte), ground (arith, flags pte))

  permits :
      (p : Privilege) (a : Access)
      → invalid pte ≡ false
      → no_leaf pte ≡ false
      → refused (at p a) pte ≡ false
      → Permits (at p a) pte
  permits p a v l r =
      let (mode, access, accessed, dirty) = four _ _ _ _ r in
      (
        (ground (arith, flags pte), ground (arith, flags pte)),
        ground (arith, flags pte),
        ground (arith, flags pte),
        may_mode p a mode,
        may_access p a access dirty,
      )

  -- The other way round.
  mode_passes :
      (p : Privilege) (a : Access) → ModeMay p (at p a) pte → user_ok p (at p a) pte ≡ true
  mode_passes Privilege.user a e = ground (arith, flags pte)
  mode_passes Privilege.supervisor Access.fetch e = ground (arith, flags pte)
  mode_passes Privilege.supervisor Access.load e = ground (arith, flags pte)
  mode_passes Privilege.supervisor Access.store e = ground (arith, flags pte)
  mode_passes Privilege.machine a e = refl

  access_passes :
      (p : Privilege) (a : Access)
      → AccessMay a (at p a) pte
      → (allowed a (at p a) pte ≡ true) × (dirty_ok (at p a) pte ≡ true)
  access_passes p Access.fetch e = (ground (arith, flags pte), refl)
  access_passes p Access.load e = (ground (arith, flags pte), refl)
  access_passes p Access.store e = (ground (arith, flags pte), ground (arith, flags pte))

  passes :
      (p : Privilege) (a : Access)
      → Permits (at p a) pte
      → (invalid pte ≡ false) × (no_leaf pte ≡ false) × (refused (at p a) pte ≡ false)
  passes p a (v, l, accessed, mode, access) =
      let m = mode_passes p a mode in
      let x = access_passes p a access in
      (
        ground (arith, flags pte, v.0, v.1),
        ground (arith, flags pte, l),
        all_four _ _ _ _ m x.0 (ground (arith, flags pte, accessed)) x.1,
      )

leaf-injective : {a b : ℕ} → Step.leaf a ≡ Step.leaf b → a ≡ b
leaf-injective e = cc

next-injective : {a b : ℕ} → Step.next a ≡ Step.next b → a ≡ b
next-injective e = cc

-- Level 0: an entry that permits the access gives its address, and no other entry gives one.
pub step-zero-leaf :
    (ctx : Context) (va pte pa : ℕ)
    → (step ctx va 0 pte ≡ Step.leaf pa)
      ↔ (Permits ctx pte × (pa ≡ pte / 2 ^ 10 * 2 ^ 12 + va % 2 ^ 12))
unfolding step
step-zero-leaf ctx va pte pa = (
  λ e.
      let (v, e1) = past (invalid pte) e in
      let (l, e2) = past_pointer (no_leaf pte) true (pte >> 10) e1 in
      let (r, e3) = past (refused ctx pte) e2 in
      (
        permits ctx.sum ctx.mxr pte ctx.privilege ctx.access v l r,
        sym (leaf-injective e3) ∙ leaf_address-zero va pte,
      ),
  λ (p, e).
      let (v, l, r) = passes ctx.sum ctx.mxr pte ctx.privilege ctx.access p in
      rw (v, l, r) (ap Step.leaf (leaf_address-zero va pte ∙ sym e)),
)

-- Level 1: the same of a megapage, which has to be aligned.
pub step-one-leaf :
    (ctx : Context) (va pte pa : ℕ)
    → (step ctx va 1 pte ≡ Step.leaf pa)
      ↔ (Permits ctx pte × (pte / 2 ^ 10 % 2 ^ 10 ≡ 0) × (pa ≡ pte / 2 ^ 20 * 2 ^ 22 + va % 2 ^ 22))
unfolding step
step-one-leaf ctx va pte pa = (
  λ e.
      let (v, e1) = past (invalid pte) e in
      let (l, e2) = past_pointer (no_leaf pte) (has pte 208) (pte >> 10) e1 in
      let (m, e3) = past (has (pte >> 10) 0x3FF) e2 in
      let (r, e4) = past (refused ctx pte) e3 in
      (
        permits ctx.sum ctx.mxr pte ctx.privilege ctx.access v l r,
        ground (arith, m, bit_and_mask 10 (pte / 2 ^ 10)),
        sym (leaf-injective e4) ∙ leaf_address-one va pte,
      ),
  λ (p, a, e).
      let (v, l, r) = passes ctx.sum ctx.mxr pte ctx.privilege ctx.access p in
      let m : has (pte >> 10) 0x3FF ≡ false = ground (arith, bit_and_mask 10 (pte / 2 ^ 10)) in
      rw (v, l, m, r) (ap Step.leaf (leaf_address-one va pte ∙ sym e)),
)

goes_on :
    (v l d m r : Bool) (table pa : ℕ) {t : ℕ}
    → (if v
        then Step.page_fault
        else if l
        then (if d then Step.page_fault else Step.next table)
        else if m
        then Step.page_fault
        else if r
        then Step.page_fault
        else Step.leaf pa)
      ≡ Step.next t
    → (v ≡ false) × (l ≡ true) × (d ≡ false) × (t ≡ table)
goes_on false true false m r table pa e = (refl, refl, refl, cc)
goes_on true l d m r table pa e = cc
goes_on false false d true r table pa e = cc
goes_on false false d false true table pa e = cc
goes_on false false d false false table pa e = cc
goes_on false true true m r table pa e = cc

-- Level 1: a pointer gives its page, and no other entry goes on.
pub step-one-next :
    (ctx : Context) (va pte t : ℕ)
    → (step ctx va 1 pte ≡ Step.next t) ↔ (IsPointer pte × (t ≡ pte / 2 ^ 10))
unfolding step
step-one-next ctx va pte t = (
  λ e.
      let (v, l, d, n) =
        goes_on (invalid pte) (no_leaf pte) (has pte 208) (has (pte >> 10) 0x3FF) (refused ctx pte)
          (pte >> 10) (leaf_address va 1 pte) e in
      (pointer_digits v l d, n),
  λ (p, e). let (v, l, d) = pointer_passes p in rw (v, l, d) (ap Step.next (sym e)),
)
  where
    pointer_digits : invalid pte ≡ false → no_leaf pte ≡ true → has pte 208 ≡ false → IsPointer pte
    pointer_digits v l d = (
      ground (arith, flags pte),
      ground (arith, flags pte),
      ground (arith, flags pte),
      ground (arith, flags pte),
      ground (arith, flags pte),
      ground (arith, flags pte),
      ground (arith, flags pte),
    )

    pointer_passes :
        IsPointer pte → (invalid pte ≡ false) × (no_leaf pte ≡ true) × (has pte 208 ≡ false)
    pointer_passes p =
        (ground (arith, flags pte, p), ground (arith, flags pte, p), ground (arith, flags pte, p))

-- Level 0 never goes on.
pub step-zero-ne-next : (ctx : Context) (va pte t : ℕ) → step ctx va 0 pte ≢ Step.next t
unfolding step
step-zero-ne-next ctx va pte t = ground arith
