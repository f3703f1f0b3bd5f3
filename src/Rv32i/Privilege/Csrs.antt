-- ===== src/Rv32i/Privilege/Csrs.antt =====
-- `sstatus` as a view of `mstatus`.
use systemscope.Base.{
  ℕ, arith, is_some, ◌≡◌, refl, Bool, true, false, ◌&&◌, &&_true, bit_and, bit_or, ◌==◌, ==_iff,
}
use systemscope.Base.Word.{◌<<◌, from_bool}
use systemscope.Rv32i.Csr.{CsrFile, csr_read, csr_write}
use systemscope.Rv32i.Privilege.{
  Privilege, Spp, M3State, privilege_bits, spp_bits, m3_sstatus, m3_mstatus, m3_read, m3_write,
  m3_is_supported, sstatus_mask,
}

-- A test that both values of a flag pass.
abbrev both : (Bool → Bool) → Bool
both f = f false && f true

abbrev each_spp : (Spp → Bool) → Bool
each_spp f = f Spp.user && f Spp.supervisor

abbrev each_mode : (Privilege → Bool) → Bool
each_mode f = f Privilege.user && (f Privilege.supervisor && f Privilege.machine)

from_both : (f : Bool → Bool) → both f ≡ true → (b : Bool) → f b ≡ true
from_both f h false = (&&_true _ _ h).0
from_both f h true = (&&_true _ _ h).1

from_spp : (f : Spp → Bool) → each_spp f ≡ true → (p : Spp) → f p ≡ true
from_spp f h Spp.user = (&&_true _ _ h).0
from_spp f h Spp.supervisor = (&&_true _ _ h).1

from_mode : (f : Privilege → Bool) → each_mode f ≡ true → (m : Privilege) → f m ≡ true
from_mode f h Privilege.user = (&&_true _ _ h).0
from_mode f h Privilege.supervisor = (&&_true _ _ (&&_true _ _ h).1).0
from_mode f h Privilege.machine = (&&_true _ _ (&&_true _ _ h).1).1

-- Whether the mask of the supervisor's bits gives the supervisor's word, for each of the flags.
abbrev view_ok : Bool → Bool → Spp → Bool → Bool → Bool → Bool → Privilege → Bool
view_ok a b p c d e f m =
    let s =
      bit_or
        (bit_or (bit_or (bit_or (from_bool a << 1) (from_bool b << 5)) (spp_bits p << 8))
          (from_bool c << 18))
        (from_bool d << 19) in
    bit_and
      (bit_or (bit_or (bit_or s (from_bool e << 3)) (from_bool f << 7)) (privilege_bits m << 11))
      sstatus_mask
    == s

-- The same for every value of the last flags.
abbrev view_mpie : Bool → Bool → Spp → Bool → Bool → Bool → Bool → Bool
view_mpie a b p c d e f = each_mode (view_ok a b p c d e f)

abbrev view_mie : Bool → Bool → Spp → Bool → Bool → Bool → Bool
view_mie a b p c d e = both (view_mpie a b p c d e)

abbrev view_mxr : Bool → Bool → Spp → Bool → Bool → Bool
view_mxr a b p c d = both (view_mie a b p c d)

abbrev view_sum : Bool → Bool → Spp → Bool → Bool
view_sum a b p c = both (view_mxr a b p c)

abbrev view_spp : Bool → Bool → Spp → Bool
view_spp a b p = both (view_sum a b p)

view_all : both (λ a. both (λ b. each_spp (view_spp a b))) ≡ true
view_all = refl

-- `sstatus` is `mstatus` with all but the bits SIE, SPIE, SPP, SUM and MXR masked off.
m3_mstatus-m3_sstatus :
    (s : M3State) (c : CsrFile) → bit_and (m3_mstatus s c) sstatus_mask ≡ m3_sstatus s
unfolding m3_mstatus m3_sstatus
m3_mstatus-m3_sstatus s c =
    let spie = from_both (λ a. both (λ b. each_spp (view_spp a b))) view_all s.sie in
    let spp = from_both (λ b. each_spp (view_spp s.sie b)) spie s.spie in
    let sum = from_spp (view_spp s.sie s.spie) spp s.spp in
    let mxr = from_both (view_sum s.sie s.spie s.spp) sum s.sum in
    let mie = from_both (view_mxr s.sie s.spie s.spp s.sum) mxr s.mxr in
    let mpie = from_both (view_mie s.sie s.spie s.spp s.sum s.mxr) mie c.mie in
    let mode = from_both (view_mpie s.sie s.spie s.spp s.sum s.mxr c.mie) mpie c.mpie in
    (==_iff _ _).0 (from_mode (view_ok s.sie s.spie s.spp s.sum s.mxr c.mie c.mpie) mode s.mpp)

-- Reads and writes of the hart answer exactly the CSRs that this profile supports.
pub is_some-m3 :
    (s : M3State) (c : CsrFile) (n v : ℕ)
    → (is_some (m3_read s c n) ≡ m3_is_supported n)
      × (is_some (m3_write s c n v) ≡ m3_is_supported n)
unfolding m3_read m3_write m3_is_supported csr_read csr_write
is_some-m3 s c n v = (ground arith, ground arith)
