-- ===== src/Platform/Bus/New/Built.antt =====
-- What a bus that was built is.
use Prim.Native.String.{String}
use text.Mathlib.Text
use text.Mathlib.TextEquality.{eq_iff}
use mathlib.Core.Bool.{false≢true}
use systemscope.Base.{
  ◌+◌, ◌≤◌, ◌≢◌, ◌⊎◌, ◌∙◌, ◌^◌, ◌<◌, ◌≡◌, ◌↔◌, refl, sym, ap, ap₂, All-map, All-both, Bool, true,
  false, ◌&&◌, Option, none, some, Result, ok, err, List, [], ◌∷◌, ◌++◌, leb, ◌==◌, if◌then◌else◌,
  length, All, arith, Bool-cases, inl, inr,
}
use systemscope.Platform.Bus.{Region, last, AddressBus}
use systemscope.Platform.Bus.Routing.{apart, IsDisjoint}
use systemscope.Platform.Bus.New.{
  BusConfigError, has_name, check_earlier, check_region, or_check, check_regions, built, bus_new,
}

-- The region has a byte, ends within the addresses of 64 bits, and leaves the CPU's port its name.
pub record Allowed (r : Region) : Type 0 where
  pub filled : 0 < r.size
  pub ends : r.base + r.size ≤ 2 ^ 64
  pub own_name : r.name ≢ "cpu"

-- Two regions with two names and no common byte: one ends where the other begins, or before it.
abbrev pub Apart : Region → Region → Type 0
Apart r s = (r.name ≢ s.name) × ((r.base + r.size ≤ s.base) ⊎ (s.base + s.size ≤ r.base))

-- Each two regions of the list.
abbrev pub AreApart : List Region → Type 0
AreApart [] = Unit
AreApart (r ∷ rs) = All (λ s. Apart r s) rs × AreApart rs

has_name_iff : (r : Region) (name : String) → (has_name r name ≡ false) ↔ (r.name ≢ name)
unfolding has_name
has_name_iff r name = (
  λ h e. absurd (false≢true (sym h ∙ (eq_iff r.name name).1 e)),
  λ h. elim (Bool-cases (Text.◌==◌ r.name name)) [
    | inl e ↦ absurd (h ((eq_iff r.name name).0 e))
    | inr e ↦ e
  ],
)

-- What the loop tests of two regions.
abbrev pub Beside : Region → Region → Type 0
Beside e r = (has_name e r.name ≡ false) × (apart e r ≡ true)

abbrev pub AreBeside : List Region → Type 0
AreBeside [] = Unit
AreBeside (r ∷ rs) = All (λ s. Beside r s) rs × AreBeside rs

if-none {ℓ} :
    {A : Type ℓ} (b : Bool) (a : A) (o : Option A)
    → (if b then some a else o) ≡ none
    → (b ≡ false) × (o ≡ none)
if-none true a o e = absurd cc
if-none false a o e = (refl, e)

check_earlier_iff :
    (es : List Region) (r : Region) → (check_earlier es r ≡ none) ↔ All (λ e. Beside e r) es
check_earlier_iff [] r = (λ e. tt, λ a. refl)
check_earlier_iff (e ∷ es) r = (
  λ h.
      let (a, h') = if-none _ _ _ h in
      let (b, h'') = if-none (leb e.base (last r) && leb r.base (last e)) _ _ h' in
      ((a, rw (b) refl), (check_earlier_iff es r).0 h''),
  λ ((a, b), h).
      let off : (leb e.base (last r) && leb r.base (last e)) ≡ false = ground (arith, b) in
      rw (a, off) ((check_earlier_iff es r).1 h),
)

check_region_iff :
    (es : List Region) (r : Region)
    → (check_region es r ≡ none) ↔ (Allowed r × All (λ e. Beside e r) es)
check_region_iff es r = (
  λ h.
      let (a, h1) = if-none (r.size == 0) _ _ h in
      let (b, h2) = if-none (leb (2 ^ 64) (last r)) _ _ h1 in
      let (c, h3) = if-none _ _ _ h2 in
      (
        record {
          filled = ground (arith, a);
          ends = ground (arith, b);
          own_name = (has_name_iff r "cpu").0 c;
        },
        (check_earlier_iff es r).0 h3,
      ),
  λ (l, h).
      let a : (r.size == 0) ≡ false = ground (arith, l.filled) in
      let b : leb (2 ^ 64) (last r) ≡ false = ground (arith, l.ends) in
      rw (a, b, (has_name_iff r "cpu").1 l.own_name) ((check_earlier_iff es r).1 h),
)

-- What the loop finds of a region after `es`.
abbrev After : List Region → Region → Type 0
After es r = Allowed r × All (λ e. Beside e r) es

All-snoc {ℓ κ} :
    {A : Type ℓ} (P : A → Type κ) (xs : List A) (x : A) → All P (xs ++ x ∷ []) ↔ (All P xs × P x)
All-snoc P [] x = (λ (p, t). (tt, p), λ (t, p). (p, tt))
All-snoc P (y ∷ xs) x = (
  λ (q, h). let (h', p) = (All-snoc P xs x).0 h in ((q, h'), p),
  λ ((q, h), p). (q, (All-snoc P xs x).1 (h, p)),
)

or_check-none : (a b : Option BusConfigError) → or_check a b ≡ none → (a ≡ none) × (b ≡ none)
or_check-none none b e = (refl, e)
or_check-none (some x) b e = absurd cc

After-snoc : (es : List Region) (r s : Region) → After (es ++ r ∷ []) s ↔ (After es s × Beside r s)
After-snoc es r s = (
  λ (l, h). let (h', p) = (All-snoc (λ e. Beside e s) es r).0 h in ((l, h'), p),
  λ ((l, h), p). (l, (All-snoc (λ e. Beside e s) es r).1 (h, p)),
)

check_regions_iff :
    (es rs : List Region) → (check_regions es rs ≡ none) ↔ (All (After es) rs × AreBeside rs)
check_regions_iff es [] = (λ e. (tt, tt), λ h. refl)
check_regions_iff es (r ∷ rs) = (
  λ h.
      let (a, b) = or_check-none _ _ h in
      let (later, beside) = (check_regions_iff (es ++ r ∷ []) rs).0 b in
      (
        ((check_region_iff es r).0 a, All-map (λ s h. ((After-snoc es r s).0 h).0) rs later),
        (All-map (λ s h. ((After-snoc es r s).0 h).1) rs later, beside),
      ),
  λ ((a, later), (own, beside)).
      let both = All-both (After es) (Beside r) rs later own in
      rw ((check_region_iff es r).1 a) (
        (check_regions_iff (es ++ r ∷ []) rs).1
          (All-map (λ s h. (After-snoc es r s).1 h) rs both, beside)),
)

Beside-Apart : (e r : Region) → Allowed e → Allowed r → Beside e r ↔ Apart e r
Beside-Apart e r k l =
    let e_filled = k.filled in
    let r_filled = l.filled in
    (
      λ (n, a). (
        (has_name_iff e r.name).0 n,
        elim (Bool-cases (leb (e.base + e.size) r.base)) [
          | inl h ↦ inl (ground (arith, h))
          | inr h ↦ inr (ground (arith, h, a, e_filled, r_filled))
        ],
      ),
      λ (n, a). (
        (has_name_iff e r.name).1 n,
        elim a [
          | inl h ↦ ground (arith, h, e_filled, r_filled)
          | inr h ↦ ground (arith, h, e_filled, r_filled)
        ],
      ),
    )

All-pair {ℓ κ μ} :
    {A : Type ℓ} {P : A → Type κ} {Q : A → Type μ} {R : A → Type κ}
    → ((x : A) → P x → Q x → R x)
    → (xs : List A) → All P xs
    → All Q xs
    → All R xs
All-pair f [] h k = tt
All-pair f (x ∷ xs) (p, h) (q, k) = (f x p q, All-pair f xs h k)

pub AreBeside-AreApart : (rs : List Region) → All Allowed rs → AreBeside rs ↔ AreApart rs
AreBeside-AreApart [] l = (λ h. tt, λ h. tt)
AreBeside-AreApart (r ∷ rs) (a, l) =
    let (there, back) = AreBeside-AreApart rs l in
    (
      λ (h, k). (All-pair (λ s b x. (Beside-Apart r s a b).0 x) rs l h, there k),
      λ (h, k). (All-pair (λ s b x. (Beside-Apart r s a b).1 x) rs l h, back k),
    )

pub record IsBuilt (rs : List Region) (b : AddressBus) : Type 0 where
  pub few : length rs < 65535
  pub allowed : All Allowed rs
  pub beside : AreApart rs
  pub regions : b.regions ≡ rs
  pub idle : b.outstanding ≡ []

pub AreBeside-IsDisjoint : (rs : List Region) → AreBeside rs → IsDisjoint rs
AreBeside-IsDisjoint [] h = tt
AreBeside-IsDisjoint (r ∷ rs) (h, k) = (All-map (λ s b. b.1) rs h, AreBeside-IsDisjoint rs k)

built-none :
    (rs : List Region) (o : Option BusConfigError) (b : AddressBus)
    → built rs o ≡ ok b
    → (o ≡ none) × (record { regions = rs; outstanding = [] } ≡ b)
built-none rs none b e = (refl, cc)
built-none rs (some x) b e = absurd cc

-- Construction succeeds exactly for fewer than 65535 regions, each of at least one byte, with its last
-- byte below 2 ^ 64 and not named `cpu`, of which no two share a name or a byte; the bus then has
-- these regions and nothing outstanding.
pub bus_new-IsBuilt : (rs : List Region) (b : AddressBus) → (bus_new rs ≡ ok b) ↔ IsBuilt rs b
unfolding bus_new
bus_new-IsBuilt rs b = (
  λ e. elim (Bool-cases (leb 65535 (length rs))) [
    | inl f ↦
        let clash : Path (Result AddressBus BusConfigError) (err BusConfigError.too_many_regions)
            (ok b) =
          rw (f) at e in
        absurd cc
    | inr f ↦
        let (n, s) = built-none rs _ b (rw (f) at e) in
        let (l, k) = (check_regions_iff [] rs).0 n in
        record {
          few = ground (arith, f);
          allowed = All-map (λ r h. h.0) rs l;
          beside = (AreBeside-AreApart rs (All-map (λ r h. h.0) rs l)).0 k;
          regions = sym (ap (λ b. b.regions) s);
          idle = sym (ap (λ b. b.outstanding) s);
        }
  ],
  λ h.
      let f : leb 65535 (length rs) ≡ false = ground (arith, h.few) in
      let n =
        (check_regions_iff [] rs).1
          (All-map (λ r l. (l, tt)) rs h.allowed, (AreBeside-AreApart rs h.allowed).1 h.beside) in
      rw (f, n)
        (ap₂ (λ r o. ok (record { regions = r; outstanding = o })) (sym h.regions) (sym h.idle)),
)
