-- ===== src/Platform/Bus/New/Routes.antt =====
-- Where a bus that was built routes.
use mathlib.Core.Option.{some-injective}
use systemscope.Base.{
  ℕ, zero, suc, ◌+◌, ◌≤◌, ◌<◌, ◌≡◌, ◌↔◌, sym, subst, some, ok, List, [], ◌∷◌, arith, All, get_elem?,
}
use systemscope.Platform.Bus.{Region, AddressBus, route}
use systemscope.Platform.Bus.Routing.{IsDisjoint, Contains, route-Contains}
use systemscope.Platform.Bus.New.{bus_new}
use systemscope.Platform.Bus.New.Built.{
  Allowed, AreBeside-AreApart, AreBeside-IsDisjoint, bus_new-IsBuilt,
}

-- The region at index `i` has each byte from `first` to `end_at`, if they are in this order.
pub record Spans (rs : List Region) (first end_at i : ℕ) (r : Region) : Type 0 where
  pub at : get_elem? rs i ≡ some r
  pub from : r.base ≤ first
  pub start : first < r.base + r.size
  pub finish : end_at < r.base + r.size

get_elem?-All {ℓ κ} :
    {A : Type ℓ} (P : A → Type κ) (xs : List A) (i : ℕ) (x : A)
    → All P xs
    → get_elem? xs i ≡ some x
    → P x
get_elem?-All P [] i x h e = absurd cc
get_elem?-All P (y ∷ xs) zero x (p, h) e = subst P (some-injective _ _ e) p
get_elem?-All P (y ∷ xs) (suc i) x (p, h) e = get_elem?-All P xs i x h e

Contains-Spans :
    (rs : List Region) (first end_at i : ℕ) (r : Region)
    → All Allowed rs
    → Contains rs first end_at i r ↔ Spans rs first end_at i r
Contains-Spans rs first end_at i r l = (
  λ c.
      let filled = (get_elem?-All Allowed rs i r l c.at).filled in
      record {
        at = c.at;
        from = ground (arith, c.start);
        start = ground (arith, c.start, filled);
        finish = ground (arith, c.finish, filled);
      },
  λ c.
      let filled = (get_elem?-All Allowed rs i r l c.at).filled in
      record {
        at = c.at;
        start = ground (arith, c.from, c.start, filled);
        finish = ground (arith, c.finish, filled);
      },
)

-- On a bus that `new` made, a span is routed to a region exactly when its first byte is in that region
-- and its last byte is not past the end of that region.
pub route-bus_new :
    (rs : List Region) (b : AddressBus) (first end_at i : ℕ) (r : Region)
    → bus_new rs ≡ ok b
    → (route b.regions first end_at ≡ some (i, r)) ↔ Spans b.regions first end_at i r
route-bus_new rs b first end_at i r e =
    let made = (bus_new-IsBuilt rs b).0 e in
    let beside = (AreBeside-AreApart rs made.allowed).1 made.beside in
    let (found, search) =
      route-Contains b.regions first end_at i r
        (subst IsDisjoint (sym made.regions) (AreBeside-IsDisjoint rs beside)) in
    let (there, back) =
      Contains-Spans b.regions first end_at i r
        (subst (All Allowed) (sym made.regions) made.allowed) in
    (λ h. there (found h), λ h. search (back h))
