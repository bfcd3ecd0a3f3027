-- ===== src/Driver/Runs.antt =====
-- The listening loop over any sequence of arrivals.
use dnet_core.Base.{
  ℕ, ◌+◌, ◌≤◌, ◌≡◌, refl, ◌∙◌, List, [], ◌∷◌, some, length, length-append, arith, Option-cases, inl,
  inr, subst,
}
use dnet_core.Net.{Net, Outcome, ok, thrown, fault}
use dnet_core.Net.Rules.{After}
use dnet_core.Net.Advance.{Advances, AtMostOneMore, same, one}
use dnet_core.Tcp.Invariant.{ConnsOk}
use dnet_core.Layers.{on_recv-Advances}
use dnet_core.Driver.{Arrival, caught, receive, do_listen}

pub caught_lem :
    (P : Net → Type 0) (o : Outcome (Unit {0})) {n : Net} → After P o → caught o ≡ some n → P n
unfolding caught After
caught_lem P (ok a m) h e = subst P (ground arith) h
caught_lem P (thrown x m) h e = subst P (ground arith) h
caught_lem P fault h e = cc

-- One frame sent for one that arrives, at most; a handler that throws does not stop the loop.
pub receive-Advances :
    (n : Net) (a : Arrival) {n' : Net}
    → ConnsOk n.connections
    → receive n a ≡ some n'
    → Advances (record n { now = a.now; rand = a.rand }) n'
unfolding receive
receive-Advances n a inv e =
    caught_lem _ _ (on_recv-Advances (record n { now = a.now; rand = a.rand }) inv a.memory a.size)
      e

-- What holds between the state before any number of rounds and the state after them.
pub record Runs (n n' : Net) (rounds : ℕ) : Type 0 where
  pub mac_kept : n'.mac ≡ n.mac
  pub subnet_kept : n'.subnet ≡ n.subnet
  pub records_kept : n'.dns_records ≡ n.dns_records
  pub conns_ok : ConnsOk n'.connections
  pub no_amplification : length n'.sent ≤ length n.sent + rounds

length-AtMostOneMore :
    (old new : List (List ℕ)) → AtMostOneMore old new → length new ≤ length old + 1
length-AtMostOneMore old new (same e) = rw e (omega arith)
length-AtMostOneMore old new (one f e) = rw e (omega (arith, length-append old (f ∷ [])))

Runs-cons :
    (n : Net) (a : Arrival) {n' n'' : Net} {rounds : ℕ}
    → Advances (record n { now = a.now; rand = a.rand }) n'
    → Runs n' n'' rounds
    → Runs n n'' (1 + rounds)
Runs-cons n a {n'} {n''} {rounds} step rest = record {
  mac_kept = rest.mac_kept ∙ step.mac_kept;
  subnet_kept = rest.subnet_kept ∙ step.subnet_kept;
  records_kept = rest.records_kept ∙ step.records_kept;
  conns_ok = rest.conns_ok;
  no_amplification =
      omega (arith, rest.no_amplification, length-AtMostOneMore n.sent n'.sent step.sends);
}

Runs-none : (n : Net) → ConnsOk n.connections → Runs n n 0
Runs-none n inv = record {
  mac_kept = refl;
  subnet_kept = refl;
  records_kept = refl;
  conns_ok = inv;
  no_amplification = omega arith;
}

-- The loop over any arrivals, from a table in order and short of undefined behaviour: the addresses
-- and records stay, every connection is in order at the end, and no more frames have been sent than
-- have arrived.
pub do_listen-Runs :
    (n : Net) (as' : List Arrival) {n' : Net}
    → ConnsOk n.connections
    → do_listen n as' ≡ some n'
    → Runs n n' (length as')
unfolding do_listen
do_listen-Runs n [] {n'} inv e = subst (λ m. Runs n m 0) {x = n} (ground arith) (Runs-none n inv)
do_listen-Runs n (a ∷ as') {n'} inv e = elim (Option-cases (receive n a)) [
  | inl stuck ↦ absurd (ground (arith, e))
  | inr (m, r) ↦ subst (Runs n n') {x = 1 + length as'} (omega arith) (
      Runs-cons n a (receive-Advances n a inv r)
        (do_listen-Runs m as' (receive-Advances n a inv r).conns (rw (r, do_listen) at e)))
]
