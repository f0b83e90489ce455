-- ===== src/Acceptor/Descriptors.antt =====
-- No descriptor of SrcFile/Acceptor.c is leaked or closed twice.
use simple_net_base.Prelude.{
  ℕ, count, ◌+◌, ◌≡◌, refl, true, List, [], Option, none, some, arith, Bool-cases, inl, inr,
}
use simple_net_base.Acceptor.{
  Acceptor, Accepted, accepted, accept_failed, noted, handle_read, refuse, close, set_idle,
  is_emfile,
}

-- Each descriptor has been opened as often as it has been closed, handed on, or is the reserve.
abbrev pub IsAccounted : Acceptor → Type 0
IsAccounted a =
    (x : ℕ) → count x a.opened ≡ count x a.closed + count x a.handed + count x (noted a.idle_fd [])

count-noted :
    (x : ℕ) (fd : Option ℕ) (fds : List ℕ)
    → count x (noted fd fds) ≡ count x fds + count x (noted fd [])
count-noted x none fds = omega arith
count-noted x (some fd) fds = omega arith

refuse-IsAccounted :
    (second reopened : Option ℕ) (a : Acceptor)
    → IsAccounted a
    → IsAccounted (refuse second reopened a)
unfolding refuse close set_idle
refuse-IsAccounted second reopened a h x = omega (
  arith,
  h x,
  count-noted x reopened (noted second a.opened),
  count-noted x second a.opened,
  count-noted x second (noted a.idle_fd a.closed),
  count-noted x a.idle_fd a.closed,
)

abbrev pub Renewed : Accepted → Option ℕ → Acceptor → Type 0
Renewed (accepted fd) reopened b = Unit {0}
Renewed (accept_failed e) reopened b = is_emfile e ≡ true → b.idle_fd ≡ reopened

-- If each descriptor has been opened as often as it has been closed, handed on, or is held in reserve, then
-- the same is true after `handleRead`, whatever `accept` and the calls after it answer, with or without a
-- callback; and when `accept` fails for want of descriptors, the reserve afterwards is what `open` gave.
pub handle_read-IsAccounted :
    (r : Accepted) (second reopened : Option ℕ) (a : Acceptor)
    → IsAccounted a
    → IsAccounted (handle_read r second reopened a)
      × Renewed r reopened (handle_read r second reopened a)
unfolding handle_read close refuse set_idle
handle_read-IsAccounted (accepted fd) second reopened a h = elim (Bool-cases a.has_callback) [
  | inl set ↦ rw set ((λ x. omega (arith, h x)), tt)
  | inr unset ↦ rw unset ((λ x. omega (arith, h x)), tt)
]
handle_read-IsAccounted (accept_failed e) second reopened a h = elim (Bool-cases (is_emfile e)) [
  | inl full ↦ rw full (refuse-IsAccounted second reopened a h, λ k. refl)
  | inr other ↦ rw other (h, λ k. cc)
]
