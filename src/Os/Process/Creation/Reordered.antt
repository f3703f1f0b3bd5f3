-- ===== src/Os/Process/Creation/Reordered.antt =====
-- The frames that `admit` compares with the reserved ones.
use mathlib.Core.Option.{some-injective}
use systemscope.Base.{
  ℕ, ◌≡◌, ◌≢◌, ap, sym, ◌∙◌, subst, true, some, List, ◌++◌, arith, All, All-both, contains,
  IsAscending, Bool-cases, inl, inr, ◌||◌, ◌↔◌,
}
use systemscope.Os.Frames.{Frames, owner, owner_is, owned_by}
use systemscope.Os.Frames.Sets.{at_element, All-contains}
use systemscope.Os.Frames.Owned.{owned_by-IsAscending, contains-owned_by}
use systemscope.Os.Process.{sort, list_eq}
use systemscope.Os.Process.Check.{with_pid}
use systemscope.Os.Process.Accounts.{IsDistinct, IsAccounted, ppns_of, claim_at}
use systemscope.Os.Process.Table.Queue.{contains-append}
use systemscope.Os.Process.Sorted.{
  contains-sort, sort-IsDistinct, IsAscending-IsDistinct, sort-IsAscending, ascending-ext,
  list_eq-eq, list_eq_refl,
}
use systemscope.Os.Process.Creation.{
  ppns_of-append, ppns_of-one, All-append, with_pid-All, All-with_pid, IsDistinct-first,
  IsDistinct-join,
}

-- The claims of other processes, before those of the creation of `pid`.
module _ (f : Frames) (cs : List (ℕ × ℕ)) (pid : ℕ) (fs : List ℕ) (positive : pid ≢ 0)
    (others : All (λ c. c.0 ≢ pid) cs) (a : IsAccounted f (cs ++ with_pid pid fs)) where
  abbrev Owner : ℕ × ℕ → Type 0
  Owner c = owner f c.1 ≡ some c.0

  owners : All Owner cs × All Owner (with_pid pid fs)
  owners = (All-append Owner cs (with_pid pid fs)).1 a.owned

  frames-IsDistinct : IsDistinct (ppns_of cs ++ fs)
  frames-IsDistinct =
      subst IsDistinct
        (ppns_of-append cs (with_pid pid fs) ∙ ap (λ t. ppns_of cs ++ t) (ppns_of-one pid fs))
        a.single

  -- A frame of another process is not one of `pid`'s.
  other_owner : (x : ℕ) → contains x (ppns_of cs) ≡ true → owner f x ≡ some pid → ⊥
  other_owner x t o =
      let (n, (w, d)) = claim_at _ x cs (All-both Owner (λ c. c.0 ≢ pid) cs owners.0 others) t in
      d (some-injective n pid (sym w ∙ o))

  contains-both :
      (x : ℕ) (frames : List ℕ)
      → contains x (ppns_of (cs ++ with_pid pid frames))
        ≡ (contains x (ppns_of cs) || contains x frames)
  contains-both x frames =
      ap (contains x) (
        ppns_of-append cs (with_pid pid frames)
        ∙ ap (λ t. ppns_of cs ++ t) (ppns_of-one pid frames))
      ∙ contains-append x (ppns_of cs) frames

  -- A frame of the creation is one that `pid` owns.
  contains-owner : (x : ℕ) → contains x fs ≡ owner_is (owner f x) pid
  contains-owner x = elim (Bool-cases (contains x fs)) [
    | inl t ↦
        let o =
          at_element (λ x. owner f x ≡ some pid) x fs (with_pid-All Owner pid fs owners.1) t in
        ground (arith, t, o)
    | inr n ↦ elim (Bool-cases (owner_is (owner f x) pid)) [
      | inr m ↦ n ∙ sym m
      | inl m ↦
          let o : owner f x ≡ some pid = ground (arith, m) in
          absurd (elim (Bool-cases (contains x (ppns_of cs))) [
            | inl t ↦ other_owner x t o
            | inr k ↦ positive (a.others x pid o (contains-both x fs ∙ ground (arith, n, k)))
          ])
    ]
  ]

  -- The same frames in another order.
  pub reordered-IsAccounted :
      (frames : List ℕ)
      → IsDistinct frames
      → ((x : ℕ) → contains x frames ≡ contains x fs)
      → IsAccounted f (cs ++ with_pid pid frames)
  reordered-IsAccounted frames d same =
      let mine =
        All-contains (λ x. owner f x ≡ some pid) frames
          (λ x t.
            at_element (λ x. owner f x ≡ some pid) x fs (with_pid-All Owner pid fs owners.1)
              (sym (same x) ∙ t)) in
      record {
        owned =
            (All-append Owner cs (with_pid pid frames)).0
              (owners.0, All-with_pid Owner pid frames mine);
        single =
            subst IsDistinct
              (sym (
                ppns_of-append cs (with_pid pid frames)
                ∙ ap (λ t. ppns_of cs ++ t) (ppns_of-one pid frames)))
              (IsDistinct-join (ppns_of cs) frames
                (IsDistinct-first (ppns_of cs) fs frames-IsDistinct) d
                (λ x t. elim (Bool-cases (contains x frames)) [
                  | inr n ↦ n
                  | inl m ↦
                      absurd
                        (other_owner x t (at_element (λ x. owner f x ≡ some pid) x frames mine m))
                ]));
        others = λ x o own n.
            a.others x o own
              (contains-both x fs ∙ ground (arith, n, contains-both x frames, same x));
      }

  -- The test of `admit` on the frames.
  pub frames_test :
      (frames : List ℕ)
      → (list_eq (sort frames) (owned_by f pid) ≡ true)
        ↔ (IsDistinct frames × ((x : ℕ) → contains x frames ≡ contains x fs))
  frames_test frames = (
    λ h.
        let e = list_eq-eq (sort frames) (owned_by f pid) h in
        (
          sort-IsDistinct frames
              (IsAscending-IsDistinct _ (subst IsAscending (sym e) (owned_by-IsAscending f pid))),
          λ x.
              sym (contains-sort x frames)
              ∙ (ap (contains x) e ∙ (contains-owned_by f pid x ∙ sym (contains-owner x))),
        ),
    λ h.
        let e =
          ascending-ext (sort frames) (owned_by f pid) (sort-IsAscending frames h.0)
            (owned_by-IsAscending f pid)
            (λ x.
              contains-sort x frames
              ∙ (h.1 x ∙ (contains-owner x ∙ sym (contains-owned_by f pid x)))) in
        rw e (list_eq_refl (owned_by f pid)),
  )
