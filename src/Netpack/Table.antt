-- ===== src/Netpack/Table.antt =====
-- The hash table of incomplete packages of ztask/lualib/lua-netpack.c: at most one for each socket.
use ztask.Base.{
  ℕ, ◌≡◌, refl, sym, ap, subst, ◌∙◌, ◌≢◌, inl, inr, Option, none, some, List, [], ◌∷◌, ◌==◌, ==_iff,
  ==_self, ==-false_of_ne, if◌then◌else◌, update_self, Bool-cases, Option-cases,
}
use ztask.Netpack.{
  Queue, Uncomplete, Progress, hash_fd, unlink, find_uncomplete, save_uncomplete, new_queue,
}

-- The progress of `fd` in a chain.
abbrev pub lookup : ℕ → List Uncomplete → Option Progress
lookup fd [] = none
lookup fd (uc ∷ next) = if uc.id == fd then some uc.progress else lookup fd next

-- No socket stands twice in the chain.
abbrev pub Unique : List Uncomplete → Type 0
Unique [] = Unit {0}
Unique (uc ∷ next) = (lookup uc.id next ≡ none) × Unique next

abbrev pub progress : ℕ → Queue → Option Progress
progress fd q = lookup fd (q.hash (hash_fd fd))

abbrev pub AllUnique : Queue → Type 0
AllUnique q = (h : ℕ) → Unique (q.hash h)

-- What `unlink` finds in a chain.
abbrev Unlinked : ℕ → List Uncomplete → Option (Uncomplete × List Uncomplete) → Type 0
Unlinked fd chain none = lookup fd chain ≡ none
Unlinked fd chain (some (uc, rest)) =
    (lookup fd chain ≡ some uc.progress)
    × (lookup fd rest ≡ none)
    × ((g : ℕ) → g ≢ fd → lookup g rest ≡ lookup g chain)
    × Unique rest

unlink-Unlinked :
    (fd : ℕ) (chain : List Uncomplete) → Unique chain → Unlinked fd chain (unlink fd chain)
unfolding unlink
unlink-Unlinked fd [] u = refl
unlink-Unlinked fd (uc ∷ next) (fresh, u) = elim (Bool-cases (uc.id == fd)) [
  | inl here ↦
      let e : uc.id ≡ fd = (==_iff uc.id fd).0 here in
      rw (here, here)
        (
          refl,
          subst (λ i. lookup i next ≡ none) e fresh,
          (λ g ne. rw (==-false_of_ne uc.id g (λ e'. ne (sym e' ∙ e)))),
          u,
        )
  | inr there ↦ elim (Option-cases (unlink fd next)) [
    | inl e ↦ rw (there, e, there) (subst (Unlinked fd next) e (unlink-Unlinked fd next u))
    | inr ((found, rest), e) ↦
        let (at, gone, others, u') = subst (Unlinked fd next) e (unlink-Unlinked fd next u) in
        let ne : uc.id ≢ fd = λ e'. cc (sym there ∙ (==_iff uc.id fd).1 e') in
        rw (there, e, there)
          (at, gone, (λ g g_ne. keep rest next g (others g g_ne)), (others uc.id ne ∙ fresh, u'))
  ]
]
  where
    keep :
        (xs ys : List Uncomplete) (g : ℕ)
        → lookup g xs ≡ lookup g ys
        → lookup g (uc ∷ xs) ≡ lookup g (uc ∷ ys)
    keep xs ys g e = rw e

-- What `find_uncomplete` does for `fd`.
abbrev pub Finds : ℕ → Queue → Option (Uncomplete × Queue) → Type 0
Finds fd q none = progress fd q ≡ none
Finds fd q (some (uc, q')) =
    (progress fd q ≡ some uc.progress)
    × (progress fd q' ≡ none)
    × ((g : ℕ) → g ≢ fd → progress g q' ≡ progress g q)
    × AllUnique q'
    × (q' ≡ record q { hash = q'.hash })

-- `find_uncomplete` finds the incomplete package of the socket, if it has one, and takes it out of the
-- table; the other sockets keep theirs.
pub find_uncomplete-Finds : (fd : ℕ) (q : Queue) → AllUnique q → Finds fd q (find_uncomplete q fd)
unfolding find_uncomplete
find_uncomplete-Finds fd q u = elim (Option-cases (unlink fd (q.hash (hash_fd fd)))) [
  | inl e ↦
      rw (find_uncomplete, e)
        (subst (Unlinked fd (q.hash (hash_fd fd))) e
          (unlink-Unlinked fd (q.hash (hash_fd fd)) (u (hash_fd fd))))
  | inr ((uc, rest), e) ↦
      let (at, gone, others, u') =
        subst (Unlinked fd (q.hash (hash_fd fd))) e
          (unlink-Unlinked fd (q.hash (hash_fd fd)) (u (hash_fd fd))) in
      rw (find_uncomplete, e)
        (
          at,
          subst (λ c. lookup fd c ≡ none) (sym (update_self q.hash (hash_fd fd) rest)) gone,
          (λ g ne. elim (Bool-cases (hash_fd g == hash_fd fd)) [
            | inl same ↦ rw same (
                others g ne
                ∙ ap (λ h. lookup g (q.hash h)) (sym ((==_iff (hash_fd g) (hash_fd fd)).0 same)))
            | inr other ↦ rw other refl
          ]),
          (λ h. elim (Bool-cases (h == hash_fd fd)) [
            | inl same ↦ rw same u'
            | inr other ↦ rw other (u h)
          ]),
          refl,
        )
]

-- `save_uncomplete` for a socket that has no incomplete package.
pub save-progress :
    (fd : ℕ) (p : Progress) (q : Queue) → progress fd (save_uncomplete fd p q) ≡ some p
unfolding save_uncomplete
save-progress fd p q = rw (==_self (hash_fd fd), ==_self fd) refl

pub save-others :
    (fd g : ℕ) (p : Progress) (q : Queue)
    → g ≢ fd
    → progress g (save_uncomplete fd p q) ≡ progress g q
unfolding save_uncomplete
save-others fd g p q ne = elim (Bool-cases (hash_fd g == hash_fd fd)) [
  | inl same ↦
      rw (same, ==-false_of_ne fd g (λ e. ne (sym e)))
        (ap (λ h. lookup g (q.hash h)) (sym ((==_iff (hash_fd g) (hash_fd fd)).0 same)))
  | inr other ↦ rw other refl
]

pub save-AllUnique :
    (fd : ℕ) (p : Progress) (q : Queue)
    → AllUnique q
    → progress fd q ≡ none
    → AllUnique (save_uncomplete fd p q)
unfolding save_uncomplete
save-AllUnique fd p q u fresh h = elim (Bool-cases (h == hash_fd fd)) [
  | inl same ↦ rw same (fresh, u (hash_fd fd))
  | inr other ↦ rw other (u h)
]

pub new_queue-AllUnique : AllUnique new_queue
unfolding new_queue
new_queue-AllUnique h = tt
