-- ===== src/Handle/Naming.antt =====
-- Giving a service a name, in ztask/ztask_handle.c.
use ztask.Base.{
  ℕ, zero, suc, ◌+◌, ◌-◌, ◌*◌, ◌≤◌, ◌<◌, ◌≡◌, ◌≢◌, refl, sym, ap, subst, ◌∙◌, inl, inr, Bool, true,
  false, Option, none, some, arith, leb, ltb, ◌==◌, if◌then◌else◌, Bool-cases, update, update_self,
}
use ztask.Handle.{
  HandleName, HandleStorage, Sign, negative, positive, search_name, findname, shift_up,
  insert_name_before, namehandle, max_slot_size,
}
use ztask.Handle.Names.{
  Orders, Sorted, Located, whole, not_there, known, findname_present, findname_absent,
}

shift_up-shifted :
    {Name : Type 0} (rounds i : ℕ) (name : ℕ → HandleName Name) (k : ℕ)
    → rounds ≤ i
    → shift_up rounds i name k
      ≡ (if ltb (i - rounds) k then (if leb k i then name (k - 1) else name k) else name k)
unfolding shift_up
shift_up-shifted zero i name k h = ground arith
shift_up-shifted (suc rounds) i name k h =
    grind (arith, shift_up-shifted rounds (i - 1) (update name i (name (i - 1))) k (omega arith))

-- The new entry stands at `place`, those from there on one further.
record Inserted {Name : Type 0} (s s' : HandleStorage Name) (text : Name) (handle place : ℕ)
    : Type 0 where
  pub counted : s'.name_count ≡ s.name_count + 1
  pub front : (i : ℕ) → i < place → s'.name i ≡ s.name i
  pub entry : s'.name place ≡ record { text = text; handle = handle }
  pub inside : place ≤ s.name_count
  pub back : (i : ℕ) → place ≤ i → i < s.name_count → s'.name (i + 1) ≡ s.name i

insert_name_before-Inserted :
    {Name : Type 0} (s : HandleStorage Name) (text : Name) (handle place : ℕ)
    → place ≤ s.name_count
    → s.name_cap * 2 ≤ max_slot_size
    → (s' : HandleStorage Name) × (insert_name_before s text handle place ≡ some s')
      × Inserted s s' text handle place
unfolding insert_name_before
insert_name_before-Inserted {Name} s text handle place h cap =
    elim (Bool-cases (leb s.name_cap s.name_count)) [
      | inl large ↦
          let fits : leb (s.name_cap * 2) max_slot_size ≡ true = ground arith in
          (
            record s {
              name = update copied place entry;
              name_cap = s.name_cap * 2;
              name_count = s.name_count + 1;
            },
            rw (large, fits) refl,
            record {
              counted = refl;
              front = λ i less. ground arith;
              inside = h;
              entry = update_self copied place entry;
              back = λ i less end. ground arith;
            },
          )
      | inr small ↦ (
        record s { name = update moved place entry; name_count = s.name_count + 1 },
        rw small refl,
        record {
          counted = refl;
          front = λ i less.
              grind (
                arith,
                shift_up-shifted (s.name_count - place) s.name_count s.name i (omega arith),
              );
          inside = h;
          entry = update_self moved place entry;
          back = λ i less end. grind (
            arith,
            shift_up-shifted (s.name_count - place) s.name_count s.name (i + 1) (omega arith),
          );
        },
      )
    ]
  where
    entry : HandleName Name
    entry = record { text = text; handle = handle }

    copied : ℕ → HandleName Name
    copied i = if ltb i place then s.name i else s.name (i - 1)

    moved : ℕ → HandleName Name
    moved = shift_up (s.name_count - place) s.name_count s.name

-- What an entry of the new table is.
data Spot {Name : Type 0} (s s' : HandleStorage Name) (text : Name) (handle place k : ℕ)
    : Type 0 where
  kept : k < place → s'.name k ≡ s.name k → Spot s s' text handle place k
  fresh :
      k ≡ place
      → s'.name k ≡ record { text = text; handle = handle }
      → Spot s s' text handle place k
  moved :
      (i : ℕ)
      → k ≡ i + 1
      → place ≤ i
      → i < s.name_count
      → s'.name k ≡ s.name i
      → Spot s s' text handle place k

spot :
    {Name : Type 0} (s s' : HandleStorage Name) (text : Name) (handle place k : ℕ)
    → Inserted s s' text handle place
    → k < s'.name_count
    → Spot s s' text handle place k
spot s s' text handle place k new h =
    let counted = new.counted in
    elim (Bool-cases (ltb k place)) [
      | inl front ↦ kept (ground arith) (new.front k (ground arith))
      | inr rest ↦ elim (Bool-cases (k == place)) [
        | inl at ↦ fresh (ground arith) (
            subst (λ i. s'.name i ≡ record { text = text; handle = handle }) (sym (ground arith))
              new.entry)
        | inr back ↦
            let after : k - 1 + 1 ≡ k = ground arith in
            let beyond : place ≤ k - 1 = ground arith in
            moved (k - 1) (sym after) beyond (omega arith) (
              subst (λ i. s'.name i ≡ s.name (k - 1)) after (new.back (k - 1) beyond (omega arith)))
      ]
    ]

-- The new table has the name, and every other name as before.
pub record AddsName {Name : Type 0} (strcmp : Name → Name → Sign) (s s' : HandleStorage Name)
    (text : Name) (handle : ℕ) : Type 0 where
  pub new : findname strcmp text s ≡ some 0
  pub found : findname strcmp text s' ≡ some handle
  pub counted : s'.name_count ≡ s.name_count + 1
  pub sorted : Sorted strcmp s'
  pub others : (other : Name) → other ≢ text → findname strcmp other s' ≡ findname strcmp other s

module _ {Name : Type 0} {strcmp : Name → Name → Sign} (laws : Orders strcmp)
    (s : HandleStorage Name) (sorted : Sorted strcmp s) (text : Name) (handle : ℕ) where
  module _ (s' : HandleStorage Name) (place : ℕ) (new : Inserted s s' text handle place)
      (less : (i : ℕ) → i < place → strcmp (s.name i).text text ≡ negative)
      (more : (i : ℕ) → place ≤ i → i < s.name_count → strcmp (s.name i).text text ≡ positive) where
    Inserted-Sorted : Sorted strcmp s'
    Inserted-Sorted i j order end =
        compare (spot s s' text handle place i new (omega arith))
          (spot s s' text handle place j new end)
      where
        compare :
            Spot s s' text handle place i
            → Spot s s' text handle place j
            → strcmp (s'.name i).text (s'.name j).text ≡ negative
        compare (kept h e) (kept h' e') = rw (e, e') (sorted i j order (omega (arith, new.inside)))
        compare (kept h e) (fresh h' e') = rw (e, e') (less i h)
        compare (kept h e) (moved j' m h' l' e') = rw (e, e') (sorted i j' (omega arith) l')
        compare (fresh h e) (kept h' e') = absurd (omega arith)
        compare (fresh h e) (fresh h' e') = absurd (omega arith)
        compare (fresh h e) (moved j' m h' l' e') =
            rw (e, e') (laws.flip_back (s.name j').text text (more j' h' l'))
        compare (moved i' m h l e) (kept h' e') = absurd (omega arith)
        compare (moved i' m h l e) (fresh h' e') = absurd (omega arith)
        compare (moved i' m h l e) (moved j' m' h' l' e') =
            rw (e, e') (sorted i' j' (omega arith) l')

    others_kept : (other : Name) → other ≢ text → findname strcmp other s' ≡ findname strcmp other s
    others_kept other differs = elim (known strcmp laws s sorted other) [
      | inl (i, h, e) ↦ elim (Bool-cases (ltb i place)) [
        | inl front ↦ same_handle i i (new.front i (ground arith)) (omega (arith, new.counted)) h e
        | inr back ↦
            same_handle i (i + 1) (new.back i (ground arith) h) (omega (arith, new.counted)) h e
      ]
      | inr absent ↦
          findname_absent strcmp laws s' Inserted-Sorted other
            (λ k end. still_absent absent k (spot s s' text handle place k new end))
          ∙ sym (findname_absent strcmp laws s sorted other absent)
    ]
      where
        same_handle :
            (i k : ℕ)
            → s'.name k ≡ s.name i
            → k < s'.name_count
            → i < s.name_count
            → (s.name i).text ≡ other
            → findname strcmp other s' ≡ findname strcmp other s
        same_handle i k same end h e =
            findname_present strcmp laws s' Inserted-Sorted other k end (ap (λ n. n.text) same ∙ e)
            ∙ ap (λ n. some n.handle) same
            ∙ sym (findname_present strcmp laws s sorted other i h e)

        still_absent :
            ((i : ℕ) → i < s.name_count → (s.name i).text ≢ other)
            → (k : ℕ) → Spot s s' text handle place k
            → (s'.name k).text ≢ other
        still_absent absent k (kept h e) e' =
            absent k (omega (arith, new.inside)) (sym (ap (λ n. n.text) e) ∙ e')
        still_absent absent k (fresh h e) e' = differs (sym e' ∙ ap (λ n. n.text) e)
        still_absent absent k (moved i m h l e) e' = absent i l (sym (ap (λ n. n.text) e) ∙ e')

    Inserted-AddsName : AddsName strcmp s s' text handle
    Inserted-AddsName = record {
      new =
          findname_absent strcmp laws s sorted text
            (not_there strcmp laws s sorted text place less more);
      found =
          findname_present strcmp laws s' Inserted-Sorted text place
            (omega (arith, new.counted, new.inside)) (ap (λ n. n.text) new.entry)
          ∙ ap (λ n. some n.handle) new.entry;
      counted = new.counted;
      sorted = Inserted-Sorted;
      others = others_kept;
    }

  -- What `ztask_handle_namehandle` may give.
  abbrev pub Outcome : Option (Bool × HandleStorage Name) → Type 0
  Outcome none = ⊥
  Outcome (some (true, s')) = AddsName strcmp s s' text handle
  Outcome (some (false, s')) =
      (s' ≡ s) × ((i : ℕ) × (i < s.name_count) × (findname strcmp text s ≡ some (s.name i).handle))

  -- On a table of names that is sorted and may still double, where `strcmp` orders the names,
  -- `ztask_handle_namehandle` either finds the name in use and changes nothing; or the name was not there,
  -- and then `ztask_handle_findname` gives its handle, every other name keeps what it had, and the table
  -- stays sorted with one entry more.
  pub namehandle_names : s.name_cap * 2 ≤ max_slot_size → Outcome (namehandle strcmp handle text s)
  unfolding namehandle
  namehandle_names room =
      from_search (search_name strcmp s.name_count text s.name 0 s.name_count)
        (whole strcmp laws s sorted text)
    where
      from_search :
          (r : Option (Bool × ℕ))
          → Located strcmp text s.name s.name_count r
          → Outcome (elim r [
            | none ↦ none
            | some (true, mid) ↦ some (false, s)
            | some (false, begin) ↦ elim (insert_name_before s text handle begin) [
              | none ↦ none
              | some s' ↦ some (true, s')
            ]
          ])
      from_search none l = absurd l
      from_search (some (true, mid)) (h, e) = (
        refl,
        (
          mid,
          h,
          findname_present strcmp laws s sorted text mid h (laws.same (s.name mid).text text e),
        ),
      )
      from_search (some (false, place)) (h, less, more) =
          let made = insert_name_before-Inserted s text handle place h room in
          rw (made.1) (Inserted-AddsName made.0 place made.2 less more)
