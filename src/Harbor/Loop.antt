-- ===== src/Harbor/Loop.antt =====
-- The loop of `push_socket_data` in ztask/server/service_harbor.c, when the connection carries what
-- `send_remote` has sent at the other end.
use ztask.Base.{
  ℕ, zero, suc, ◌+◌, ◌<◌, ◌≤◌, ◌≡◌, refl, sym, ap, ◌∙◌, subst, Bool, none, some, List, ◌++◌,
  append_assoc, arith, length,
}
use ztask.Harbor.{HarborMsg, Slave, Harbor, Action}
use ztask.Harbor.Service.{Outcome, after, find_slave}
use ztask.Harbor.Data.{Round, data_step, data_loop}
use ztask.Harbor.Content.{
  packed, AllSmall, delivered, InHeader, InContent, Awaits, Same, Goes, content_goes,
}
use ztask.Harbor.Receive.{header_goes}
use ztask.Harbor.Content.{at_header, at_content}

-- What the data of a connection does when the messages `ms` come.
abbrev pub Took : (Action → Bool) → Harbor → ℕ → List HarborMsg → List ℕ → Outcome → Type 0
Took accepts h id ms future none = ⊥
Took accepts h id ms future (some (h', actions)) =
    (ms' : List HarborMsg) × Awaits (h'.s id) ms' future
    × AllSmall ms'
    × Same h h'
    × (actions ++ delivered accepts h.id ms' ≡ delivered accepts h.id ms)

step_goes :
    (accepts : Action → Bool) (h : Harbor) (id : ℕ) (s : Slave) (ms : List HarborMsg)
    (bytes buffer future : List ℕ) (fuel : ℕ)
    → h.s id ≡ s
    → AllSmall ms
    → Awaits s ms bytes
    → bytes ≡ buffer ++ future
    → length buffer ≤ fuel
    → Goes accepts h id ms future fuel (data_step accepts h id buffer)
unfolding data_step
step_goes accepts h id s ms bytes buffer future fuel e small (at_header _ _ _ p inside eq) b few =
    let here = subst (λ t. InHeader t p) (sym e) inside in
    rw (Goes, data_step, here.0)
      (header_goes accepts h id ms buffer future p fuel small here (ap (λ l. p ++ l) (sym b) ∙ eq)
        few)
step_goes accepts h id s ms bytes buffer future fuel e small (at_content _ m ms' _ p inside eq) b
      few =
    let here = subst (λ t. InContent t (length (packed m)) p) (sym e) inside in
    rw (Goes, data_step, here.0)
      (content_goes accepts h id (h.s id) m ms' buffer future p fuel refl small here
        (ap (λ l. p ++ l) (sym b) ∙ eq) few)

pub after-Took :
    (accepts : Action → Bool) (h h₁ : Harbor) (id : ℕ) (ms ms₁ : List HarborMsg) (future : List ℕ)
    (actions : List Action) (o : Outcome)
    → Same h h₁
    → actions ++ delivered accepts h.id ms₁ ≡ delivered accepts h.id ms
    → Took accepts h₁ id ms₁ future o
    → Took accepts h id ms future (after actions o)
after-Took accepts h h₁ id ms ms₁ future actions none same d took = took
after-Took accepts h h₁ id ms ms₁ future actions (some (h', more)) (i, fds) d
      (ms', a, small, (i', fds'), d') =
    (
      ms',
      a,
      small,
      (i' ∙ i, λ j. fds' j ∙ fds j),
      append_assoc actions more (delivered accepts h.id ms')
          ∙ ap (λ l. actions ++ l)
              (subst (λ n. more ++ delivered accepts n ms' ≡ delivered accepts n ms₁) i d')
          ∙ d,
    )

-- The rounds behind the first.
go_on :
    (accepts : Action → Bool) (fuel : ℕ) (h : Harbor) (id : ℕ) (ms : List HarborMsg)
    (future : List ℕ) (r : Round)
    → Goes accepts h id ms future fuel r
    → ((h₁ : Harbor) (ms₁ : List HarborMsg) (rest : List ℕ)
        → AllSmall ms₁
        → Awaits (h₁.s id) ms₁ (rest ++ future)
        → length rest < fuel
        → Took accepts h₁ id ms₁ future (data_loop accepts fuel h₁ id rest))
    → Took accepts h id ms future (elim r [
      | none ↦ none
      | some (h', (actions, none)) ↦ some (h', actions)
      | some (h', (actions, some rest)) ↦ after actions (data_loop accepts fuel h' id rest)
    ])
go_on accepts fuel h id ms future none goes more = goes
go_on accepts fuel h id ms future (some (h', (actions, none))) (ms', a, small, same, d, l) more =
    (ms', a, small, same, d)
go_on accepts fuel h id ms future (some (h', (actions, some rest))) (ms', a, small, same, d, l)
      more =
    after-Took accepts h h' id ms ms' future actions (data_loop accepts fuel h' id rest) same d
      (more h' ms' rest small a l)

pub loop-Took :
    (accepts : Action → Bool) (fuel : ℕ) (h : Harbor) (id : ℕ) (ms : List HarborMsg)
    (buffer future : List ℕ)
    → AllSmall ms
    → Awaits (h.s id) ms (buffer ++ future)
    → length buffer < fuel
    → Took accepts h id ms future (data_loop accepts fuel h id buffer)
unfolding data_loop
loop-Took accepts zero h id ms buffer future small a few = absurd (omega arith)
loop-Took accepts (suc fuel) h id ms buffer future small a few =
    go_on accepts fuel h id ms future (data_step accepts h id buffer)
      (step_goes accepts h id (h.s id) ms (buffer ++ future) buffer future fuel refl small a refl
        (omega arith))
      (λ h₁ ms₁ rest small₁ a₁ few₁. loop-Took accepts fuel h₁ id ms₁ rest future small₁ a₁ few₁)

pub find_slave-same :
    (rounds i : ℕ) (s s' : ℕ → Slave) (fd : ℕ)
    → ((j : ℕ) → (s' j).fd ≡ (s j).fd)
    → find_slave rounds i s' fd ≡ find_slave rounds i s fd
find_slave-same zero i s s' fd same = refl
find_slave-same (suc rounds) i s s' fd same =
    rw (same i, find_slave-same rounds (i + 1) s s' fd same) refl
