-- ===== src/Queue/Life.antt =====
-- The life of an entry of the generation queue: the changes that the critical sections of queue.go
-- make to it, one at a time, and what each change keeps.
use x_mock_mcp.Prelude.{
  ℕ, suc, ◌≤◌, ◌<◌, ◌≡◌, refl, ◌≢◌, sym, ap, ◌∙◌, ◌⊎◌, String, true, false, not, Option, none, [],
  ◌∷◌, ◌++◌, bit, arith,
}
use x_mock_mcp.Api.{Failure}
use x_mock_mcp.Queue.Types.{
  State, pending, leased, resolving, resolved, Entry, Owner, from_milli, terminal,
}
use x_mock_mcp.Queue.Ops.{is_open}
use x_mock_mcp.Queue.Claim.{grant}
use x_mock_mcp.Queue.Resolve.{Codec, digest}

abbrev pub given_back : Entry → Entry
given_back e = record e { state = pending; lease = "" }

abbrev pub taken : String → String → Entry → Entry
taken candidate hash e = record e {
  hash = hash;
  candidate = candidate;
  state = resolving;
  delivery = e.delivery ++ candidate ∷ [];
}

abbrev pub closed : State → String → Option Failure → Entry → Entry
closed state raw failure e = record e {
  state = state;
  response = raw;
  err = failure;
  timer = false;
  closes = suc e.closes;
}

module _ (codec : Codec) where
  -- One change of an entry.
  pub data Change (e e' : Entry) : Type 0 where
    back : e.state ≡ leased → e' ≡ given_back e → Change e e'
    lend :
        (now : ℕ) (o : Owner) (lease : String)
        → e.state ≡ pending
        → now < from_milli e.need.deadline_ms
        → e' ≡ grant now o lease e
        → Change e e'
    take :
        (candidate : String)
        → e.state ≡ leased
        → digest codec candidate ≢ ""
        → e' ≡ taken candidate (digest codec candidate) e
        → Change e e'
    close :
        (state : State) (raw : String) (failure : Option Failure)
        → terminal e.state ≡ false
        → terminal state ≡ true
        → (state ≡ resolved → (e.state ≡ resolving) × (failure ≡ none))
        → e' ≡ closed state raw failure e
        → Change e e'

  pub data Life (e : Entry) : Entry → Type 0 where
    here : Life e e
    next : {e' e'' : Entry} → Life e e' → Change e' e'' → Life e e''

  pub Life-trans : {a b c : Entry} → Life a b → Life b c → Life a c
  Life-trans l here = l
  Life-trans l (next m ch) = next (Life-trans l m) ch

  -- What holds of every entry between two critical sections: it is finished at most once, its
  -- timer is live while it is open, at most one candidate was sent to the application, namely the
  -- one whose digest was recorded, and only a resolved or failed commit follows it.
  pub record IsSound (e : Entry) : Type 0 where
    pub closed_once : e.closes ≡ bit (terminal e.state)
    pub timer_live : e.timer ≡ not (terminal e.state)
    pub sent :
        ((e.hash ≡ "") × (e.delivery ≡ []))
        ⊎ ((e.hash ≢ "") × (e.delivery ≡ e.candidate ∷ []) × (digest codec e.candidate ≡ e.hash))
    pub pending_unsent : e.state ≡ pending → e.hash ≡ ""
    pub leased_unsent : e.state ≡ leased → e.hash ≡ ""
    pub resolving_sent : e.state ≡ resolving → e.hash ≢ ""
    pub resolved_sent : e.state ≡ resolved → (e.hash ≢ "") × (e.err ≡ none)
    pub lease_in_time : e.state ≡ leased → e.lease_expiry ≤ from_milli e.need.deadline_ms

  pub Change-IsSound : {e e' : Entry} → Change e e' → IsSound e → IsSound e'
  unfolding terminal grant
  Change-IsSound {e} {e'} (back h p) s = rw p (ground arith)
  Change-IsSound {e} {e'} (lend now o lease h t p) s = rw p (ground arith)
  Change-IsSound {e} {e'} (take c h d p) s = rw p (ground arith)
  Change-IsSound {e} {e'} (close st raw f h t r p) s = rw p (ground arith)

  pub Life-IsSound : {e e' : Entry} → Life e e' → IsSound e → IsSound e'
  Life-IsSound here s = s
  Life-IsSound (next l ch) s = Change-IsSound ch (Life-IsSound l s)

  -- What no change touches.
  pub record Same (e e' : Entry) : Type 0 where
    pub run : e'.run ≡ e.run
    pub need : e'.need ≡ e.need

  Change-Same : {e e' : Entry} → Change e e' → Same e e'
  unfolding grant
  Change-Same (back h p) = rw p (ground arith)
  Change-Same (lend now o lease h t p) = rw p (ground arith)
  Change-Same (take c h d p) = rw p (ground arith)
  Change-Same (close st raw f h t r p) = rw p (ground arith)

  pub Life-Same : {e e' : Entry} → Life e e' → Same e e'
  Life-Same here = record { run = refl; need = refl }
  Life-Same (next l ch) = record {
    run = (Change-Same ch).run ∙ (Life-Same l).run;
    need = (Change-Same ch).need ∙ (Life-Same l).need;
  }

  -- A finished entry has no further change.
  Change-open : {e e' : Entry} → Change e e' → terminal e.state ≡ false
  unfolding terminal
  Change-open (back h p) = rw h refl
  Change-open (lend now o lease h t p) = rw h refl
  Change-open (take c h d p) = rw h refl
  Change-open (close st raw f h t r p) = h

  pub Life-final : {e e' : Entry} → Life e e' → terminal e.state ≡ true → e' ≡ e
  Life-final here t = refl
  Life-final {e} (next {e' = m} l ch) t =
      let p : m ≡ e = Life-final l t in
      absurd (cc (Change-open ch, ap (λ (x : Entry). terminal x.state) p))

  -- An accepted candidate is never replaced.
  Change-hash :
      {e e' : Entry}
      → Change e e'
      → IsSound e
      → e.hash ≢ ""
      → (e'.hash ≡ e.hash) × (e'.candidate ≡ e.candidate) × (e'.delivery ≡ e.delivery)
  unfolding grant
  Change-hash (back h p) s n = rw p (ground arith)
  Change-hash (lend now o lease h t p) s n = rw p (ground arith)
  Change-hash (take c h d p) s n = absurd (n (s.leased_unsent h))
  Change-hash (close st raw f h t r p) s n = rw p (ground arith)

  pub Life-hash :
      {e e' : Entry}
      → Life e e'
      → IsSound e
      → e.hash ≢ ""
      → (e'.hash ≡ e.hash) × (e'.candidate ≡ e.candidate) × (e'.delivery ≡ e.delivery)
  Life-hash here s n = (refl, refl, refl)
  Life-hash {e} {e'} (next {e' = m} l ch) s n =
      let ih : (m.hash ≡ e.hash) × (m.candidate ≡ e.candidate) × (m.delivery ≡ e.delivery) =
        Life-hash l s n in
      let now : (e'.hash ≡ m.hash) × (e'.candidate ≡ m.candidate) × (e'.delivery ≡ m.delivery) =
        Change-hash ch (Life-IsSound l s) (λ z. n (sym ih.0 ∙ z)) in
      (now.0 ∙ ih.0, now.1 ∙ ih.1, now.2 ∙ ih.2)

  -- Nor are its lease and the epoch of that.
  Change-lease :
      {e e' : Entry}
      → Change e e'
      → IsSound e
      → e.hash ≢ ""
      → (e'.lease ≡ e.lease) × (e'.epoch ≡ e.epoch)
  unfolding grant
  Change-lease (back h p) s n = absurd (n (s.leased_unsent h))
  Change-lease (lend now o lease h t p) s n = absurd (n (s.pending_unsent h))
  Change-lease (take c h d p) s n = absurd (n (s.leased_unsent h))
  Change-lease (close st raw f h t r p) s n = rw p (ground arith)

  pub Life-lease :
      {e e' : Entry}
      → Life e e'
      → IsSound e
      → e.hash ≢ ""
      → (e'.lease ≡ e.lease) × (e'.epoch ≡ e.epoch)
  Life-lease here s n = (refl, refl)
  Life-lease {e} {e'} (next {e' = m} l ch) s n =
      let ih : (m.lease ≡ e.lease) × (m.epoch ≡ e.epoch) = Life-lease l s n in
      let now : (e'.lease ≡ m.lease) × (e'.epoch ≡ m.epoch) =
        Change-lease ch (Life-IsSound l s) (λ z. n (sym (Life-hash l s n).0 ∙ z)) in
      (now.0 ∙ ih.0, now.1 ∙ ih.1)

  -- An entry never opens again.
  Change-open_le : {e e' : Entry} → Change e e' → bit (is_open e') ≤ bit (is_open e)
  Change-open_le {e} {e'} ch = rw (Change-open ch) (ground arith)

  pub Life-open_le : {e e' : Entry} → Life e e' → bit (is_open e') ≤ bit (is_open e)
  Life-open_le here = omega arith
  Life-open_le (next l ch) = omega (arith, Life-open_le l, Change-open_le ch)
