-- ===== src/Monitor/Check.antt =====
-- What the monitor of ztask/ztask_monitor.c finds.
use ztask.Base.{
  ℕ, suc, ◌+◌, ◌%◌, ◌^◌, ◌<◌, ◌≡◌, ◌≢◌, refl, sym, ap, ◌∙◌, arith, none, some, ◌==◌, if◌then◌else◌,
  List, [], ◌∷◌,
}
use ztask.Monitor.{Monitor, trigger, check}

-- A worker's triggers, in order: a message from `source` to `destination`, both 0 at its end.
unfoldable pub triggers : List (ℕ × ℕ) → Monitor → Monitor
unfolding trigger
triggers [] sm = sm
triggers ((source, destination) ∷ ts) sm = triggers ts (trigger source destination sm)

abbrev pub count : List (ℕ × ℕ) → ℕ
count [] = 0
count (t ∷ ts) = suc (count ts)

triggers-version :
    (ts : List (ℕ × ℕ)) (sm : Monitor)
    → ((triggers ts sm).version % 2 ^ 32 ≡ (sm.version + count ts) % 2 ^ 32)
      × ((triggers ts sm).check_version ≡ sm.check_version)
unfolding triggers trigger
triggers-version [] sm = (ap (λ n. n % 2 ^ 32) (omega arith), refl)
triggers-version ((s, d) ∷ ts) sm =
    let (v, c) = triggers-version ts (trigger s d sm) in (omega arith, c)

settled :
    (sm : Monitor)
    → ((check sm).1.version ≡ sm.version)
      × ((check sm).1.check_version ≡ sm.version)
      × ((check sm).1.destination ≡ sm.destination)
unfolding check
settled sm = ground arith

busy :
    (sm : Monitor)
    → sm.version ≡ sm.check_version
    → (check sm).0 ≡ (if sm.destination == 0 then none else some sm.destination)
unfolding check
busy sm e = ground arith

moving : (sm : Monitor) → sm.version ≢ sm.check_version → (check sm).0 ≡ none
unfolding check
moving sm ne = ground arith

triggered :
    (source destination : ℕ) (sm : Monitor)
    → ((trigger source destination sm).destination ≡ destination)
      × ((trigger source destination sm).version < 2 ^ 32)
unfolding trigger
triggered source destination sm = (refl, omega arith)

-- A worker begins with a message to `destination`. Where two checks follow before its next trigger, the
-- second names that service, and none where the trigger is the end of a message (`destination` 0). With
-- triggers between the two checks, fewer than 2^32, the second names none.
pub second_check :
    (sm : Monitor) (source destination : ℕ) (ts : List (ℕ × ℕ))
    → 0 < count ts
    → count ts < 2 ^ 32
    → (let begun = trigger source destination sm in
        ((check (check begun).1).0 ≡ (if destination == 0 then none else some destination))
        × ((check (triggers ts (check begun).1)).0 ≡ none))
second_check sm source destination ts pos lt =
    let begun = trigger source destination sm in
    let (names, small) = triggered source destination sm in
    let (v, c, d) = settled begun in
    let (v', c') = triggers-version ts (check begun).1 in
    (
      busy (check begun).1 (v ∙ sym c) ∙ ap (λ x. if x == 0 then none else some x) (d ∙ names),
      moving (triggers ts (check begun).1) (λ e. omega arith),
    )
