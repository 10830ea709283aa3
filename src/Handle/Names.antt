-- ===== src/Handle/Names.antt =====
-- The table of names of ztask/ztask_handle.c, in the order of `strcmp`.
use ztask.Base.{
  ℕ, zero, suc, ◌+◌, ◌-◌, ◌/◌, ◌≤◌, ◌<◌, ◌≡◌, ◌≢◌, ◌⊎◌, refl, sym, ap, subst, ◌∙◌, inl, inr, Bool,
  true, false, Option, none, some, arith, ltb, ◌==◌, if◌then◌else◌, Bool-cases,
}
use ztask.Handle.{
  HandleName, HandleStorage, Sign, negative, zero_sign, positive, search_name, findname,
}

-- What `strcmp` of the C library promises: it orders the strings.
pub record Orders {Name : Type 0} (strcmp : Name → Name → Sign) : Type 0 where
  pub same : (a b : Name) → strcmp a b ≡ zero_sign → a ≡ b
  pub itself : (a : Name) → strcmp a a ≡ zero_sign
  pub flip : (a b : Name) → strcmp a b ≡ negative → strcmp b a ≡ positive
  pub flip_back : (a b : Name) → strcmp a b ≡ positive → strcmp b a ≡ negative
  pub chain : (a b c : Name) → strcmp a b ≡ negative → strcmp b c ≡ negative → strcmp a c ≡ negative

-- The cases of a comparison.
pub data Compared (c : Sign) : Type 0 where
  below : c ≡ negative → Compared c
  equal : c ≡ zero_sign → Compared c
  above : c ≡ positive → Compared c

compared : (c : Sign) → Compared c
compared negative = below refl
compared zero_sign = equal refl
compared positive = above refl

not_equal : negative ≢ zero_sign
not_equal e = subst (λ c. elim c [ negative ↦ Unit {0} | zero_sign ↦ ⊥ | positive ↦ ⊥ ]) e tt

not_equal' : positive ≢ zero_sign
not_equal' e = subst (λ c. elim c [ negative ↦ ⊥ | zero_sign ↦ ⊥ | positive ↦ Unit {0} ]) e tt

module _ {Name : Type 0} (strcmp : Name → Name → Sign) where
  -- The names below `n` are in order, without repetition.
  abbrev pub Sorted : HandleStorage Name → Type 0
  Sorted s =
      (i j : ℕ) → i < j → j < s.name_count → strcmp (s.name i).text (s.name j).text ≡ negative

  -- An index with the name, or the place where it belongs.
  abbrev pub Located : Name → (ℕ → HandleName Name) → ℕ → Option (Bool × ℕ) → Type 0
  Located text name n none = ⊥
  Located text name n (some (true, mid)) = (mid < n) × (strcmp (name mid).text text ≡ zero_sign)
  Located text name n (some (false, place)) =
      (place ≤ n)
      × ((i : ℕ) → i < place → strcmp (name i).text text ≡ negative)
      × ((i : ℕ) → place ≤ i → i < n → strcmp (name i).text text ≡ positive)

  module _ (laws : Orders strcmp) (s : HandleStorage Name) (sorted : Sorted s) (text : Name) where
    less_below :
        (mid : ℕ)
        → mid < s.name_count
        → strcmp (s.name mid).text text ≡ negative
        → (i : ℕ) → i < mid + 1
        → strcmp (s.name i).text text ≡ negative
    less_below mid h e i less = elim (Bool-cases (i == mid)) [
      | inl at ↦ subst (λ k. strcmp (s.name k).text text ≡ negative) (sym (ground arith)) e
      | inr other ↦
          laws.chain (s.name i).text (s.name mid).text text (sorted i mid (ground arith) h) e
    ]

    more_above :
        (mid : ℕ)
        → mid < s.name_count
        → strcmp (s.name mid).text text ≡ positive
        → (i : ℕ) → mid ≤ i
        → i < s.name_count
        → strcmp (s.name i).text text ≡ positive
    more_above mid h e i less end = elim (Bool-cases (i == mid)) [
      | inl at ↦ subst (λ k. strcmp (s.name k).text text ≡ positive) (sym (ground arith)) e
      | inr other ↦ laws.flip text (s.name i).text (
          laws.chain text (s.name mid).text (s.name i).text
            (laws.flip_back (s.name mid).text text e) (sorted mid i (ground arith) end))
    ]

    -- The binary search ends within as many rounds as there are names, and locates the name.
    search_name-Located :
        (fuel begin stop : ℕ)
        → stop ≤ begin + fuel
        → stop ≤ s.name_count
        → begin ≤ stop
        → ((i : ℕ) → i < begin → strcmp (s.name i).text text ≡ negative)
        → ((i : ℕ) → stop ≤ i → i < s.name_count → strcmp (s.name i).text text ≡ positive)
        → Located text s.name s.name_count (search_name strcmp fuel text s.name begin stop)
    unfolding search_name
    search_name-Located zero begin stop h end order less more =
        let empty : ltb begin stop ≡ false = ground arith in
        rw empty (omega arith, less, λ i h' h''. more i (omega arith) h'')
    search_name-Located (suc fuel) begin stop h end order less more =
        elim (Bool-cases (ltb begin stop)) [
          | inr empty ↦ rw empty (omega arith, less, λ i h' h''. more i (ground arith) h'')
          | inl busy ↦
              let mid = (begin + (stop - 1)) / 2 in
              let ordered : begin < stop = ground arith in
              let inside : mid < stop = omega arith in
              let reached : begin ≤ mid = omega arith in
              elim (compared (strcmp (s.name mid).text text)) [
                | equal e ↦ rw (busy, e) (omega arith, e)
                | below e ↦
                    rw (busy, e)
                      (search_name-Located fuel (mid + 1) stop (omega arith) end (omega arith)
                        (less_below mid (omega arith) e) more)
                | above e ↦
                    rw (busy, e)
                      (search_name-Located fuel begin mid (omega arith) (omega arith) reached less
                        (more_above mid (omega arith) e))
              ]
        ]

    pub whole :
        Located text s.name s.name_count
          (search_name strcmp s.name_count text s.name 0 s.name_count)
    whole =
        search_name-Located s.name_count 0 s.name_count (omega arith) (omega arith) (omega arith)
          (λ i h. absurd (omega arith)) (λ i h h'. absurd (omega arith))

    only_one :
        (mid i : ℕ)
        → mid < s.name_count
        → i < s.name_count
        → strcmp (s.name mid).text text ≡ zero_sign
        → (s.name i).text ≡ text
        → mid ≡ i
    only_one mid i h h' e e' =
        let same = laws.same (s.name mid).text text e in
        elim (Bool-cases (ltb mid i)) [
          | inl less ↦ absurd (
              not_equal (
                sym (sorted mid i (ground arith) h')
                ∙ ap (λ t. strcmp t (s.name i).text) same
                ∙ ap (strcmp text) e'
                ∙ laws.itself text))
          | inr more ↦ elim (Bool-cases (ltb i mid)) [
            | inl less ↦ absurd (
                not_equal (
                  sym (sorted i mid (ground arith) h)
                  ∙ ap (λ t. strcmp t (s.name mid).text) e'
                  ∙ ap (strcmp text) same
                  ∙ laws.itself text))
            | inr level ↦ ground arith
          ]
        ]

    -- `ztask_handle_findname` finds the handle of a name in the table.
    pub findname_present :
        (i : ℕ)
        → i < s.name_count
        → (s.name i).text ≡ text
        → findname strcmp text s ≡ some (s.name i).handle
    unfolding findname
    findname_present i h e =
        from_search (search_name strcmp s.name_count text s.name 0 s.name_count) whole
      where
        from_search :
            (r : Option (Bool × ℕ))
            → Located text s.name s.name_count r
            → elim r [
              | none ↦ none
              | some (found, mid) ↦ some (if found then (s.name mid).handle else 0)
            ]
              ≡ some (s.name i).handle
        from_search none l = absurd l
        from_search (some (true, mid)) (less, equal_sign) =
            ap (λ k. some (s.name k).handle) (only_one mid i less h equal_sign e)
        from_search (some (false, place)) (end, less, more) = elim (Bool-cases (ltb i place)) [
          | inl front ↦ absurd (
              not_equal
                (sym (less i (ground arith)) ∙ ap (λ t. strcmp t text) e ∙ laws.itself text))
          | inr back ↦ absurd (
              not_equal'
                (sym (more i (ground arith) h) ∙ ap (λ t. strcmp t text) e ∙ laws.itself text))
        ]

    -- It gives 0 for any other name.
    pub findname_absent :
        ((i : ℕ) → i < s.name_count → (s.name i).text ≢ text) → findname strcmp text s ≡ some 0
    unfolding findname
    findname_absent new =
        from_search (search_name strcmp s.name_count text s.name 0 s.name_count) whole
      where
        from_search :
            (r : Option (Bool × ℕ))
            → Located text s.name s.name_count r
            → elim r [
              | none ↦ none
              | some (found, mid) ↦ some (if found then (s.name mid).handle else 0)
            ]
              ≡ some 0
        from_search none l = absurd l
        from_search (some (true, mid)) (less, e) =
            absurd (new mid less (laws.same (s.name mid).text text e))
        from_search (some (false, place)) l = refl

    pub not_there :
        (place : ℕ)
        → ((i : ℕ) → i < place → strcmp (s.name i).text text ≡ negative)
        → ((i : ℕ) → place ≤ i → i < s.name_count → strcmp (s.name i).text text ≡ positive)
        → (i : ℕ) → i < s.name_count
        → (s.name i).text ≢ text
    not_there place less more i h e = elim (Bool-cases (ltb i place)) [
      | inl front ↦
          not_equal (sym (less i (ground arith)) ∙ ap (λ t. strcmp t text) e ∙ laws.itself text)
      | inr back ↦
          not_equal' (sym (more i (ground arith) h) ∙ ap (λ t. strcmp t text) e ∙ laws.itself text)
    ]

    -- A name is in the table or it is not.
    pub known :
        ((i : ℕ) × (i < s.name_count) × ((s.name i).text ≡ text))
        ⊎ ((i : ℕ) → i < s.name_count → (s.name i).text ≢ text)
    known = from_search (search_name strcmp s.name_count text s.name 0 s.name_count) whole
      where
        from_search :
            (r : Option (Bool × ℕ))
            → Located text s.name s.name_count r
            → ((i : ℕ) × (i < s.name_count) × ((s.name i).text ≡ text))
              ⊎ ((i : ℕ) → i < s.name_count → (s.name i).text ≢ text)
        from_search none l = absurd l
        from_search (some (true, mid)) (less, e) =
            inl (mid, less, laws.same (s.name mid).text text e)
        from_search (some (false, place)) (end, less, more) = inr (not_there place less more)
